-- ===== src/Flows/Tests.antt =====
-- internal/service/flow_version.go: a capture beside an older version.
use nrcc.Base.{◌≤◌, ◌≡◌, refl, true, false, none, some, [], ◌∷◌, arith, length}
use nrcc.Base.Texts.{Text, codes}
use nrcc.Flows.{max_versions, FlowVersions, names, written, version_name, capture_now, revert}
use nrcc.Flows.Versions.{capture_now-revert}

abbrev hash : Text → Text
hash t = codes "0123456789abcdef"

abbrev service : FlowVersions
service = record {
  flows = some (codes "[1]");
  versions = (codes "20250101-000000_aaaaaaaa.json", codes "[0]") ∷ [];
  last_hash = [];
}

abbrev name : Text
name = version_name (codes "20250102-000000") (hash (codes "[1]"))

capture_now-revert_example :
    let captured = capture_now hash (λ _. false) written (codes "20250102-000000") service in
    (captured.1 ≡ true)
    × (revert hash written name (record captured.0 { flows = none; last_hash = [] })
        ≡ (record captured.0 { flows = some (codes "[1]"); last_hash = hash (codes "[1]") }, true))
    × (length (
          names (capture_now hash (λ _. true) written (codes "20250102-000000") service).0.versions)
        ≤ max_versions)
capture_now-revert_example =
    capture_now-revert hash (λ _. false) (codes "20250102-000000") (codes "[1]") [] none service
      refl refl (omega arith) refl
