-- ===== src/Agent/Addresses.antt =====
-- internal/agent/agent.go: normalizeGatewayAddrs. strings.TrimSpace is a parameter.
use tunneledge.Common.{
  Text, ◌≡◌, refl, Bool, true, false, not, ◌&&◌, ◌||◌, List, [], ◌∷◌, ◌++◌, Option, none, some,
  is_empty, text_eq, text_eq_iff, if◌then◌else◌, arith, map, Bool-cases, inl, inr,
}
use tunneledge.Common.Maps.{Dict, get, put, get-put}

-- The variables of the function: the set `seen` and the list `normalized`.
pub record Normalized : Type 0 where
  pub seen : Dict (Unit {0})
  pub normalized : List Text

abbrev pub exists : Option (Unit {0}) → Bool
exists none = false
exists (some u) = true

-- The body of appendAddr after the addr is trimmed
abbrev pub append_trimmed : Normalized → Text → Normalized
append_trimmed v addr =
    if is_empty addr || exists (get v.seen addr)
    then v
    else record { seen = put v.seen addr tt; normalized = v.normalized ++ (addr ∷ []) }

unfoldable pub contains : List Text → Text → Bool
contains [] x = false
contains (y ∷ ys) x = text_eq y x || contains ys x

-- How often an address is in the list.
abbrev pub IsDistinct : List Text → Type 0
unfolding contains
IsDistinct [] = Unit
IsDistinct (x ∷ xs) = contains xs x ≡ false × IsDistinct xs

abbrev Agree : Normalized → Type 0
Agree v = (x : Text) → exists (get v.seen x) ≡ contains v.normalized x

contains-append :
    (xs : List Text) (y x : Text) → contains (xs ++ (y ∷ [])) x ≡ contains xs x || text_eq y x
unfolding contains
contains-append [] y x = ground arith
contains-append (z ∷ xs) y x = ground (arith, contains-append xs y x)

IsDistinct-append :
    (xs : List Text) (y : Text)
    → IsDistinct xs
    → contains xs y ≡ false
    → IsDistinct (xs ++ (y ∷ []))
unfolding contains
IsDistinct-append [] y d h = (refl, tt)
IsDistinct-append (x ∷ xs) y (a, d) h = (
  ground (arith, contains-append xs y x, a, h, text_eq_iff x y, text_eq_iff y x),
  IsDistinct-append xs y d (ground (arith, h)),
)

append_trimmed-Agree : (v : Normalized) (addr : Text) → Agree v → Agree (append_trimmed v addr)
append_trimmed-Agree v addr a x = elim (Bool-cases (is_empty addr || exists (get v.seen addr))) [
  | inl e ↦ rw e (a x)
  | inr e ↦
      rw e (ground (arith, get-put v.seen addr x tt, contains-append v.normalized addr x, a x))
]

append_trimmed-IsDistinct :
    (v : Normalized) (addr : Text)
    → Agree v
    → IsDistinct v.normalized
    → IsDistinct (append_trimmed v addr).normalized
append_trimmed-IsDistinct v addr a d =
    elim (Bool-cases (is_empty addr || exists (get v.seen addr))) [
      | inl e ↦ rw e (d)
      | inr e ↦ rw e (IsDistinct-append v.normalized addr d (ground (arith, e, a addr)))
    ]

contains-append_trimmed :
    (v : Normalized) (addr x : Text)
    → Agree v
    → contains (append_trimmed v addr).normalized x
      ≡ contains v.normalized x || (text_eq addr x && not (is_empty x))
contains-append_trimmed v addr x a = elim (Bool-cases (is_empty addr || exists (get v.seen addr))) [
  | inl e ↦ rw e (ground (arith, e, a addr, a x, text_eq_iff addr x))
  | inr e ↦
      rw e (ground (arith, e, contains-append v.normalized addr x, a addr, a x, text_eq_iff addr x))
]

module _ (trim_space : Text → Text) where
  unfoldable pub append_all : Normalized → List Text → Normalized
  append_all v [] = v
  append_all v (addr ∷ addrs) = append_all (append_trimmed v (trim_space addr)) addrs

  -- normalizeGatewayAddrs
  unfoldable pub normalize_gateway_addrs : Text → List Text → List Text
  unfolding append_all
  normalize_gateway_addrs primary addrs =
      (append_all (record { seen = []; normalized = [] }) (primary ∷ addrs)).normalized

  append_all-IsDistinct :
      (v : Normalized) (addrs : List Text)
      → Agree v
      → IsDistinct v.normalized
      → IsDistinct (append_all v addrs).normalized
  unfolding append_all
  append_all-IsDistinct v [] a d = d
  append_all-IsDistinct v (addr ∷ addrs) a d =
      append_all-IsDistinct (append_trimmed v (trim_space addr)) addrs
        (append_trimmed-Agree v (trim_space addr) a)
        (append_trimmed-IsDistinct v (trim_space addr) a d)

  contains-append_all :
      (v : Normalized) (addrs : List Text) (x : Text)
      → Agree v
      → contains (append_all v addrs).normalized x
        ≡ contains v.normalized x || (contains (map trim_space addrs) x && not (is_empty x))
  unfolding append_all contains
  contains-append_all v [] x a = ground arith
  contains-append_all v (addr ∷ addrs) x a = ground (
    arith,
    contains-append_all (append_trimmed v (trim_space addr)) addrs x
        (append_trimmed-Agree v (trim_space addr) a),
    contains-append_trimmed v (trim_space addr) x a,
  )

  -- An address is in the list that normalizeGatewayAddrs returns exactly if it is not empty and is the
  -- trimmed form of the primary address or of a further one, and no address is there twice.
  pub normalize_gateway_addrs-IsDistinct :
      (primary : Text) (addrs : List Text)
      → IsDistinct (normalize_gateway_addrs primary addrs)
        × ((x : Text)
            → contains (normalize_gateway_addrs primary addrs) x
              ≡ contains (map trim_space (primary ∷ addrs)) x && not (is_empty x))
  unfolding normalize_gateway_addrs contains get
  normalize_gateway_addrs-IsDistinct primary addrs = (
    append_all-IsDistinct (record { seen = []; normalized = [] }) (primary ∷ addrs) (λ x. refl) tt,
    λ x.
        contains-append_all (record { seen = []; normalized = [] }) (primary ∷ addrs) x (λ y. refl),
  )
