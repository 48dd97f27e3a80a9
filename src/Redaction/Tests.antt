-- ===== src/Redaction/Tests.antt =====
-- internal/service/apply_diff.go: two settings with other secrets.
use nrcc.Base.Texts.{Text, codes}
use nrcc.Base.{◌≡◌, refl, String, [], ◌∷◌, ◌++◌}
use nrcc.Redaction.{
  newline, split_lines, depth_after, key_in_line, is_secret, ends_with_comma,
  redact_settings_content, redact_diff,
}
use nrcc.Redaction.Keys.{assignment}
use nrcc.Redaction.Hiding.{
  SameButSecrets, finished, shared, secret, inside, redaction_hides_secrets,
}

abbrev settings : String → String → Text
settings secret_value password =
    codes "  uiPort: 1880,"
    ++ newline ∷ codes "  credentialSecret:"
    ++ codes secret_value
    ++ newline ∷ codes "  adminAuth: {"
    ++ newline ∷ codes password
    ++ newline ∷ codes "  },"

alike :
    SameButSecrets 0
      (split_lines (settings " 'a'," "    p: 'x'"))
      (split_lines (settings " 'bc'," "    p: 'yz'"))
unfolding split_lines depth_after key_in_line is_secret ends_with_comma assignment
alike = shared 0 (codes "  uiPort: 1880,") _ _ (
    secret (codes "  ") (codes "credentialSecret") (codes " 'a',") (codes " 'bc',") _ _ refl refl
      refl refl refl
      (shared 0 (codes "  adminAuth: {") _ _ (
        inside 0 (codes "    p: 'x'") (codes "    p: 'yz'") _ _ refl refl
          (shared 1 (codes "  },") [] [] (finished 0)))))

redaction_hides_secrets_example :
    (redact_settings_content (settings " 'a'," "    p: 'x'")
      ≡ redact_settings_content (settings " 'bc'," "    p: 'yz'"))
    × (redact_diff (settings " 'a'," "    p: 'x'") (settings " 'bc'," "    p: 'yz'") ≡ [])
redaction_hides_secrets_example =
    redaction_hides_secrets (settings " 'a'," "    p: 'x'") (settings " 'bc'," "    p: 'yz'") alike
