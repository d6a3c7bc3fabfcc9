-- ===== src/Authn/Oidc/Refresh.antt =====
-- crates/lakefs-authn/src/oidc/mod.rs: when refreshes for an unknown key happen.
use lakefs_auth.Common.{
  ℕ, ◌+◌, ◌≤◌, ◌≡◌, refl, true, false, Option, none, some, List, [], ◌∷◌, ◌++◌, arith, Bool-cases,
  inl, inr,
}
use Prim.Native.Nat.{min}
use mathlib.Core.Path.{subst}
use lakefs_auth.Std.Result.{Result, ok, err, is_ok}
use lakefs_auth.Authn.Oidc.{
  OidcSettings, OidcProvider, KeyRefresh, Round, hold_of, is_held, refresh_for_key_error,
  after_discovery, held_answer,
}

abbrev IsPast : ℕ → Option KeyRefresh → Type 0
IsPast time none = Unit
IsPast time (some previous) = previous.at ≤ time

IsPast-later : (s t : ℕ) (last : Option KeyRefresh) → s ≤ t → IsPast s last → IsPast t last
IsPast-later s t none h k = tt
IsPast-later s t (some previous) h k = omega arith

module _ {D F : Type 0} where
  abbrev pub refresh_of : Round D F → KeyRefresh
  refresh_of round = record { at = round.finish; succeeded = is_ok round.answer }

  -- The clock of the calls: each starts when the lock is free, no earlier than the one before ended.
  abbrev pub IsOrdered : ℕ → List (Round D F) → Type 0
  IsOrdered time [] = Unit
  IsOrdered time (round ∷ rounds) =
      (time ≤ round.start) × (round.start ≤ round.finish) × IsOrdered round.finish rounds

  after_discovery_last :
      (provider : OidcProvider D) (finish : ℕ) (answer : Result D F)
      → (after_discovery provider finish answer).1.last_key_refresh
        ≡ some (record { at = finish; succeeded = is_ok answer })
  after_discovery_last provider finish (ok discovered) = refl
  after_discovery_last provider finish (err failure) = refl

  module _ (settings : OidcSettings) where
    -- The discoveries that calls make, one after the other.
    unfoldable pub fetched : OidcProvider D → List (Round D F) → List (Round D F)
    fetched provider [] = []
    fetched provider (round ∷ rounds) =
        let (refreshed, made) = refresh_for_key_error settings provider round in
        made ++ fetched refreshed.1 rounds

    -- A discovery waits for the configured interval after one that succeeded, and for the cooldown,
    -- where that is shorter, after one that failed.
    abbrev pub IsAfter : Option KeyRefresh → Round D F → Type 0
    IsAfter none round = Unit
    IsAfter (some previous) round =
        (previous.succeeded ≡ true → previous.at + settings.min_refresh_interval ≤ round.start)
        × (previous.succeeded ≡ false
            → previous.at + min settings.failed_refresh_cooldown settings.min_refresh_interval
              ≤ round.start)

    abbrev pub IsSpaced : Option KeyRefresh → List (Round D F) → Type 0
    IsSpaced previous [] = Unit
    IsSpaced previous (round ∷ rounds) =
        IsAfter previous round × IsSpaced (some (refresh_of round)) rounds

    is_held-IsAfter :
        (last : Option KeyRefresh) (round : Round D F)
        → IsPast round.start last
        → is_held settings last round.start ≡ false
        → IsAfter last round
    unfolding is_held hold_of
    is_held-IsAfter none round past free = tt
    is_held-IsAfter (some previous) round past free =
        (λ good. ground (arith, past, free, good), λ bad. ground (arith, past, free, bad))

    refreshed :
        (provider : OidcProvider D) (round : Round D F)
        → is_held settings provider.last_key_refresh round.start ≡ false
        → refresh_for_key_error settings provider round
          ≡ (after_discovery provider round.finish round.answer, round ∷ [])
    unfolding refresh_for_key_error
    refreshed provider round free = rw free refl

    held_off :
        (provider : OidcProvider D) (round : Round D F)
        → is_held settings provider.last_key_refresh round.start ≡ true
        → refresh_for_key_error settings provider round
          ≡ ((held_answer provider provider.last_key_refresh, provider), [])
    unfolding refresh_for_key_error
    held_off provider round held = rw held refl

    -- Among any calls in the order of the clock, the discoveries are spaced: each waits out the time for
    -- which the one before holds it off.
    pub fetched-IsSpaced :
        (provider : OidcProvider D) (time : ℕ) (rounds : List (Round D F))
        → IsPast time provider.last_key_refresh
        → IsOrdered time rounds
        → IsSpaced provider.last_key_refresh (fetched provider rounds)
    unfolding fetched
    fetched-IsSpaced provider time [] past ordered = tt
    fetched-IsSpaced provider time (round ∷ rounds) past (after, before, ordered) =
        let last = provider.last_key_refresh in
        let next = (after_discovery provider round.finish round.answer).1 in
        let now_past : IsPast round.start last = IsPast-later time round.start last after past in
        elim (Bool-cases (is_held settings last round.start)) [
          | inl held ↦ rw (held_off provider round held) (
              fetched-IsSpaced provider round.finish rounds
                (IsPast-later round.start round.finish last before now_past) ordered)
          | inr free ↦
              let left : next.last_key_refresh ≡ some (refresh_of round) =
                after_discovery_last provider round.finish round.answer in
              let done : IsPast round.finish next.last_key_refresh = rw left (omega arith) in
              rw (refreshed provider round free) (
                is_held-IsAfter last round now_past free,
                subst (λ refresh. IsSpaced refresh (fetched next rounds)) left
                    (fetched-IsSpaced next round.finish rounds done ordered),
              )
        ]
