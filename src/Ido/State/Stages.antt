-- ===== src/Ido/State/Stages.antt =====
-- The stages of a sale: `get_current_stage` and `stage_investment` of ido/program/src/state.rs.
use solstarter.Common.{
  ℕ, ◌+◌, ℤ, pos, pos_part, ◌-ℤ◌, ◌≤ℤ◌, ◌<ℤ◌, IsI64, ◌≡◌, ◌⊎◌, [], ◌∷◌, ltb, ltb_ℤ, ◌||◌,
  wrapping_sub_i64, wrapping_sub_i64-eq, pos_part_sub, neg_part_sub, if◌then◌else◌, arith,
}
use solstarter.Solana.{Clock, ok, err}
use solstarter.Ido.Error.{cant_deposit_at_current_time, into}
use solstarter.Ido.State.{Pool, Stage, initial_stage, tier_allocation_stage, final_stage}
use solstarter.Ido.State.Sale.{get_current_stage}

-- The stage by the seconds since the start and the lengths of the first two stages.
abbrev pub stage_at : ℕ → ℕ → ℕ → Stage
stage_at first second elapsed =
    if ltb elapsed first
    then initial_stage
    else if ltb elapsed (first + second)
    then tier_allocation_stage
    else final_stage

sub_second :
    (elapsed : ℤ) (first : ℕ)
    → IsI64 elapsed
    → pos first ≤ℤ elapsed
    → wrapping_sub_i64 elapsed (pos first) ≡ elapsed -ℤ pos first
sub_second elapsed first h le =
    wrapping_sub_i64-eq elapsed (pos first) ground
      (arith, pos_part_sub elapsed (pos first), neg_part_sub elapsed (pos first))

module _ (p : Pool) (clock : Clock) {first second : ℕ}
    (table : p.time_table ≡ first ∷ second ∷ []) where
  -- Between start and finish of a pool the stage is given by the seconds since the start: the initial
  -- one for the first entry of the time table, the tier allocation for the second, then the final.
  get_current_stage-stage_at :
      p.time_start ≤ℤ clock.unix_timestamp
      → clock.unix_timestamp ≤ℤ p.time_finish
      → IsI64 (clock.unix_timestamp -ℤ p.time_start)
      → get_current_stage p clock
        ≡ ok (stage_at first second (pos_part (clock.unix_timestamp -ℤ p.time_start)))
  unfolding get_current_stage
  get_current_stage-stage_at lo hi fits =
      rw (table, wrapping_sub_i64-eq _ _ fits)
        (grind (
          arith,
          pos_part_sub clock.unix_timestamp p.time_start,
          neg_part_sub clock.unix_timestamp p.time_start,
          sub_second (clock.unix_timestamp -ℤ p.time_start) first fits,
          pos_part_sub (clock.unix_timestamp -ℤ p.time_start) (pos first),
          neg_part_sub (clock.unix_timestamp -ℤ p.time_start) (pos first),
        ))

-- Outside of its time frame a pool has no stage.
get_current_stage_outside :
    (p : Pool) (clock : Clock)
    → (clock.unix_timestamp <ℤ p.time_start) ⊎ (p.time_finish <ℤ clock.unix_timestamp)
    → get_current_stage p clock ≡ err (into cant_deposit_at_current_time)
unfolding get_current_stage
get_current_stage_outside p clock h = ground arith

-- The stage of a pool whose time table has two entries, at any time that is an `i64` number of seconds
-- from its start: an error before the start and after the finish, and in between the initial stage for
-- the seconds of the first entry, the tier allocation for those of the second, and the final stage.
pub get_current_stage-eq :
    (p : Pool) (clock : Clock) {first second : ℕ}
    → p.time_table ≡ first ∷ second ∷ []
    → IsI64 (clock.unix_timestamp -ℤ p.time_start)
    → get_current_stage p clock ≡ (
        if ltb_ℤ clock.unix_timestamp p.time_start || ltb_ℤ p.time_finish clock.unix_timestamp
        then err (into cant_deposit_at_current_time)
        else ok (stage_at first second (pos_part (clock.unix_timestamp -ℤ p.time_start))))
get_current_stage-eq p clock table fits =
    ground (arith, get_current_stage-stage_at p clock table, get_current_stage_outside p clock)
