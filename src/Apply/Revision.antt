-- ===== src/Apply/Revision.antt =====
-- internal/service/source_revision.go: revisions of settings.js and when two of them match.
use nrcc.Base.{
  ◌≡◌, ◌⊎◌, ◌↔◌, String, Bool, true, false, not, ◌&&◌, arith, if◌then◌else◌, str_eq, eq_iff,
}
use nrcc.Apply.{SourceRevision}

abbrev pub source_revision_algorithm : String
source_revision_algorithm = "sha256"

-- `FingerprintSource`; the digest and the clock are parameters.
unfoldable pub fingerprint_source : (String → String) → String → String → SourceRevision
fingerprint_source sha256_hex captured_at content = record {
  fingerprint = sha256_hex content;
  algorithm = source_revision_algorithm;
  captured_at = captured_at;
}

-- `RevisionMatches`
unfoldable pub revision_matches : SourceRevision → SourceRevision → Bool
revision_matches expected current =
    if str_eq expected.fingerprint ""
    then true
    else if not (str_eq expected.algorithm "")
        && not (str_eq current.algorithm "")
        && not (str_eq expected.algorithm current.algorithm)
    then false
    else str_eq expected.fingerprint current.fingerprint

-- Against the revision of a content an expectation matches exactly if it is empty, or names the
-- content's digest under this algorithm or none; the capture times play no part.
pub revision_matches-fingerprint_source :
    (sha256_hex : String → String) (at content : String) (expected : SourceRevision)
    → (revision_matches expected (fingerprint_source sha256_hex at content) ≡ true) ↔ (
        (expected.fingerprint ≡ "")
        ⊎ ((expected.fingerprint ≡ sha256_hex content)
            × ((expected.algorithm ≡ "") ⊎ (expected.algorithm ≡ source_revision_algorithm))))
unfolding revision_matches fingerprint_source
revision_matches-fingerprint_source sha256_hex at content expected = (
  λ h. ground (
    arith,
    eq_iff expected.fingerprint "",
    eq_iff expected.algorithm "",
    eq_iff expected.algorithm source_revision_algorithm,
    eq_iff expected.fingerprint (sha256_hex content),
  ),
  λ h. ground (
    arith,
    eq_iff expected.fingerprint "",
    eq_iff expected.algorithm "",
    eq_iff expected.algorithm source_revision_algorithm,
    eq_iff expected.fingerprint (sha256_hex content),
  ),
)
