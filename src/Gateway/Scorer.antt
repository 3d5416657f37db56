-- ===== src/Gateway/Scorer.antt =====
-- internal/gateway/relay_scorer.go: RelayScorer. Float64 arithmetic is a parameter.
use tunneledge.Common.{Text, ℕ, [], Option, none, some, is_empty, if◌then◌else◌}
use tunneledge.Common.Maps.{Dict, get, put}
use tunneledge.Domain.{RelayHealth}

-- What the scorer uses of float64. `literal a b` is the constant a / b, and `of_bits` reads the bit
-- pattern that `RelayHealth` keeps.
pub record Float64 : Type 1 where
  pub F : Type 0
  pub literal : ℕ → ℕ → F
  pub of_int : ℕ → F
  pub of_bits : ℕ → F
  pub add : F → F → F
  pub sub : F → F → F
  pub mul : F → F → F
  pub div : F → F → F
  pub max : F → F → F

pub record RelayScorer (F : Type 0) : Type 0 where
  pub scores : Dict F
  pub regions : Dict Text
  pub addrs : Dict Text
  pub alpha : F

-- defaultEWMAAlpha
abbrev pub default_alpha : (fl : Float64) → fl.F
default_alpha fl = fl.literal 3 10

-- NewRelayScorer
abbrev pub new_scorer : (fl : Float64) → RelayScorer fl.F
new_scorer fl = record { scores = []; regions = []; addrs = []; alpha = default_alpha fl }

-- computeScore
unfoldable pub compute_score : (fl : Float64) → RelayHealth → fl.F
compute_score fl h =
    let one = fl.literal 1 1 in
    let rtt_score = fl.div one (fl.add one (fl.div (fl.of_int h.rtt_millis) (fl.literal 500 1))) in
    let loss_score =
      fl.max (fl.literal 0 1)
        (fl.sub one (fl.div (fl.of_bits h.packet_loss_pct) (fl.literal 100 1))) in
    let util_score = fl.max (fl.literal 0 1) (
      fl.sub one (
        fl.div (fl.add (fl.of_bits h.cpu_utilization_pct) (fl.of_bits h.memory_utilization_pct))
          (fl.literal 200 1))) in
    fl.add (fl.add (fl.mul (fl.literal 4 10) rtt_score) (fl.mul (fl.literal 4 10) loss_score))
      (fl.mul (fl.literal 2 10) util_score)

-- The score that Update stores: smoothed, if there is one before it.
unfoldable pub smoothed : (fl : Float64) → fl.F → fl.F → Option fl.F → fl.F
smoothed fl alpha new none = new
smoothed fl alpha new (some prev) =
    fl.add (fl.mul alpha new) (fl.mul (fl.sub (fl.literal 1 1) alpha) prev)

-- if v != "" { m[k] = v }
unfoldable pub put_unless_empty : Dict Text → Text → Text → Dict Text
put_unless_empty m k v = if is_empty v then m else put m k v

-- RelayScorer.Update
unfoldable pub update : (fl : Float64) → Text → RelayHealth → RelayScorer fl.F → RelayScorer fl.F
unfolding compute_score smoothed put_unless_empty
update fl relay_id h rs = record rs {
  scores =
      put rs.scores relay_id (smoothed fl rs.alpha (compute_score fl h) (get rs.scores relay_id));
  regions = put_unless_empty rs.regions relay_id h.region;
  addrs = put_unless_empty rs.addrs relay_id h.advertise_addr;
}
