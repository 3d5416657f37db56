-- ===== src/Domain/Validate.antt =====
-- internal/domain/validate.go: the validators of labels and local addresses.
use tunneledge.Common.{
  Text, ℕ, ◌≤◌, ◌≡◌, Bool, true, false, ◌&&◌, ◌||◌, [], ◌∷◌, is_empty, length, ltb, leb, ◌==◌,
  if◌then◌else◌, arith,
}
use tunneledge.Errs.{Result, ok, new, coded, refuse, invalid_arg, ◌>>◌}

-- [a-z0-9]
abbrev pub is_lower_alnum : ℕ → Bool
is_lower_alnum c = (leb b'a' c && leb c b'z') || (leb b'0' c && leb c b'9')

-- [a-z0-9-]
abbrev pub is_label_char : ℕ → Bool
is_label_char c = is_lower_alnum c || c == b'-'

abbrev pub all_label_chars : Text → Bool
all_label_chars [] = true
all_label_chars (c ∷ s) = is_label_char c && all_label_chars s

abbrev pub ends_alnum : ℕ → Text → Bool
ends_alnum c [] = is_lower_alnum c
ends_alnum c (d ∷ s) = ends_alnum d s

-- labelRegexp.MatchString: a letter or digit, and then nothing, or at most 62 letters, digits and
-- hyphens and a letter or digit
unfoldable pub match_label : Text → Bool
match_label [] = false
match_label (c ∷ s) =
    is_lower_alnum c && (all_label_chars s && (ends_alnum c s && leb (length s) 63))

-- ValidateLabel: the length in an error message is not printed.
unfoldable pub validate_label : Text → Result (Unit {0})
unfolding match_label
validate_label label = do
  refuse (is_empty label) (new invalid_arg "label cannot be empty")
  refuse (ltb 64 (length label))
      (coded invalid_arg "label too long: %d chars (max 64)" (label ∷ []))
  refuse (if match_label label then false else true) (
      coded invalid_arg
        "label %q is not a valid DNS-safe name (lowercase alphanumeric and hyphens only)"
        (label ∷ []))
  ok tt

-- ValidateLocalAddr
unfoldable pub validate_local_addr : Text → Result (Unit {0})
validate_local_addr addr = do
  refuse (is_empty addr) (new invalid_arg "local_addr cannot be empty")
  refuse (ltb 256 (length addr)) (new invalid_arg "local_addr too long")
  ok tt

pub record IsDnsLabel (label : Text) : Type 0 where
  pub some_char : is_empty label ≡ false
  pub short : length label ≤ 64
  pub chars : all_label_chars label ≡ true

-- A label that ValidateLabel takes is a DNS label: it is not empty, has at most 64 bytes, and consists
-- of small letters, digits and hyphens.
pub validate_label-IsDnsLabel : (label : Text) → validate_label label ≡ ok tt → IsDnsLabel label
unfolding validate_label
validate_label-IsDnsLabel [] h = cc
validate_label-IsDnsLabel (c ∷ s) h = ground arith
