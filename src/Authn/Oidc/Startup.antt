-- ===== src/Authn/Oidc/Startup.antt =====
-- crates/lakefs-authn/src/oidc/mod.rs: the first loop of `run`.
use lakefs_auth.Common.{
  ℕ, zero, suc, ◌+◌, ◌*◌, ◌≤◌, ◌<◌, ◌≡◌, refl, sym, ap, ◌∙◌, ◌⊎◌, inl, inr, Option, some, List, [],
  ◌∷◌, arith,
}
use Prim.Native.Nat.{min}
use lakefs_auth.Std.Result.{Result, ok, err, Result-cases}
use lakefs_auth.Authn.Oidc.{
  OidcProvider, Event, attempted, slept, startup, after_attempt, initial_backoff, max_backoff,
}

abbrev pub IsBackoff : ℕ → Type 0
IsBackoff delay = (initial_backoff ≤ delay) × (delay ≤ max_backoff)

doubled-IsBackoff : (delay : ℕ) → IsBackoff delay → IsBackoff (min (delay * 2) max_backoff)
doubled-IsBackoff delay (low, high) = (omega arith, omega arith)

module _ {D F : Type 0} (answers : ℕ → Result D F) where
  -- The attempt found the metadata, which the provider then holds, and the loop ended.
  abbrev pub IsFound : ℕ → Option (OidcProvider D) × List Event → Type 0
  IsFound attempt (up, events) =
      (d : D) × (provider : OidcProvider D) × (answers attempt ≡ ok d)
      × (up ≡ some provider)
      × (provider.current ≡ some d)
      × (events ≡ attempted ∷ [])

  -- From an attempt on, the loop finds the metadata after so many failures at most, and sleeps once
  -- after each.
  abbrev pub IsUp : ℕ → ℕ → Option (OidcProvider D) × List Event → Type 0
  IsUp zero attempt done = IsFound attempt done
  IsUp (suc n) attempt (up, events) =
      IsFound attempt (up, events)
      ⊎ ((failure : F) × (pause : ℕ) × (rest : List Event) × (answers attempt ≡ err failure)
          × (events ≡ attempted ∷ slept pause ∷ rest)
          × IsBackoff pause
          × IsUp n (suc attempt) (up, rest))

  after_attempt-IsFound :
      (attempt backoff : ℕ) (provider : OidcProvider D) (d : D)
      (later : Option (OidcProvider D) × List Event)
      → answers attempt ≡ ok d
      → IsFound attempt (after_attempt provider backoff (answers attempt) later)
  after_attempt-IsFound attempt backoff provider d (later, events) found =
      let up : OidcProvider D = record {
        current = some d;
        last_key_refresh = provider.last_key_refresh;
      } in
      rw found (d, up, refl, refl, refl, refl)

  -- What an attempt makes of the loop, given what a later one makes of it.
  attempt-IsUp :
      (n attempt backoff : ℕ) (provider : OidcProvider D)
      (later : Option (OidcProvider D) × List Event)
      → IsBackoff backoff
      → IsUp n (suc attempt) later
      → IsUp (suc n) attempt (after_attempt provider backoff (answers attempt) later)
  attempt-IsUp n attempt backoff provider (up, events) bounded h =
      elim (Result-cases (answers attempt)) [
        | inl (d, found) ↦ inl (after_attempt-IsFound attempt backoff provider d (up, events) found)
        | inr (failure, failed) ↦ rw failed (inr (failure, backoff, events, refl, refl, bounded, h))
      ]

  startup-from :
      (n fuel attempt backoff : ℕ) (provider : OidcProvider D) (d : D)
      → answers (attempt + n) ≡ ok d
      → n < fuel
      → IsBackoff backoff
      → IsUp n attempt (startup fuel provider backoff answers attempt)
  unfolding startup
  startup-from n zero attempt backoff provider d found enough hb = absurd (omega arith)
  startup-from zero (suc fuel) attempt backoff provider d found enough hb =
      let here : attempt + 0 ≡ attempt = omega arith in
      after_attempt-IsFound attempt backoff provider d _ (ap answers (sym here) ∙ found)
  startup-from (suc n) (suc fuel) attempt backoff provider d found enough hb =
      let next : suc attempt + n ≡ attempt + suc n = omega arith in
      attempt-IsUp n attempt backoff provider _ hb (
        startup-from n fuel (suc attempt) (min (backoff * 2) max_backoff) provider d
          (ap answers next ∙ found) (omega arith) (doubled-IsBackoff backoff hb))

  -- When the provider answers the attempt `n` with its metadata, the loop ends after `n` failures at
  -- most: it sleeps once, between one second and thirty, after each attempt that failed, and ends at
  -- the first that did not, whose metadata the provider then holds.
  pub startup-IsUp :
      (n : ℕ) (provider : OidcProvider D) (d : D)
      → answers n ≡ ok d
      → IsUp n 0 (startup (suc n) provider initial_backoff answers 0)
  startup-IsUp n provider d found =
      let here : 0 + n ≡ n = omega arith in
      startup-from n (suc n) 0 initial_backoff provider d (ap answers here ∙ found) (omega arith)
        (omega arith, omega arith)
