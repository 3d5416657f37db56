-- ===== src/Errs.antt =====
-- pkg/errs/errors.go: coded errors, wrapping, and GetCode.
-- A message is its format string and the format's arguments, not yet printed.
use tunneledge.Common.{Text, String, List, [], Bool, true, false}

-- The constants of type Code.
pub data Code : Type 0 where
  unknown not_found already_exists unauthorized forbidden timeout unavailable internal : Code
  canceled deadline invalid_arg connection_lost : Code

-- google.golang.org/grpc/codes, those that the registry returns.
pub data RpcCode : Type 0 where
  rpc_invalid_argument rpc_not_found rpc_already_exists rpc_internal rpc_unavailable : RpcCode

-- `coded` is an `*errs.Error` without a cause, `caused` one with a cause, `wrapped` an error made by
-- fmt.Errorf with `%w`, `rpc` one made by grpc's status.Error, and `plain` any other error.
pub data GoError : Type 0 where
  coded : Code → String → List Text → GoError
  caused : Code → String → List Text → GoError → GoError
  wrapped : String → List Text → GoError → GoError
  rpc : RpcCode → String → List Text → GoError
  plain : String → List Text → GoError

-- New
abbrev pub new : Code → String → GoError
new c message = coded c message []

-- Wrap with a cause that is not nil
abbrev pub wrap : Code → String → GoError → GoError
wrap c message cause = caused c message [] cause

-- GetCode
unfoldable pub get_code : GoError → Code
get_code (coded c _ _) = c
get_code (caused c _ _ _) = c
get_code (wrapped _ _ cause) = get_code cause
get_code (rpc _ _ _) = unknown
get_code (plain _ _) = unknown

-- IsNotFound
unfoldable pub is_not_found : GoError → Bool
unfolding get_code
is_not_found e = elim (get_code e) [ not_found ↦ true | _ ↦ false ]

-- IsUnauthorized
unfoldable pub is_unauthorized : GoError → Bool
unfolding get_code
is_unauthorized e = elim (get_code e) [ unauthorized ↦ true | _ ↦ false ]

-- The value or the error of a Go function that returns both.
pub data Result {ℓ} (A : Type ℓ) : Type ℓ where
  ok : A → Result A
  err : GoError → Result A

-- value, err := call; if err != nil { return err }, and the code that follows
infixl 5 ◌>>◌ ◌>>=◌
abbrev pub ◌>>=◌ {κ ℓ} :
    {Next : Type κ} {Value : Type ℓ} → Result Value → (Value → Result Next) → Result Next
call >>= follow = elim call [ err failure ↦ err failure | ok value ↦ follow value ]

-- The same for a check that returns no value.
abbrev pub ◌>>◌ {κ} : {Next : Type κ} → Result (Unit {0}) → Result Next → Result Next
check >> follow = check >>= λ passed. follow

-- if b { return e }
abbrev pub refuse : Bool → GoError → Result (Unit {0})
refuse true e = err e
refuse false e = ok tt
