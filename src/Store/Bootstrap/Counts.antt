-- ===== src/Store/Bootstrap/Counts.antt =====
-- What the report of a bootstrap counts.
use lakefs_auth.Common.{
  ℕ, ◌+◌, ◌^◌, ◌<◌, ◌≡◌, refl, Bool, true, false, List, [], ◌∷◌, length, arith,
}
use lakefs_auth.Std.Result.{ok, err}
use lakefs_auth.Store.Error.{StoreResult}
use lakefs_auth.Store.Types.{BootstrapPlan, BootstrapReport}
use lakefs_auth.Store.Bootstrap.{
  Write, BootstrapWriter, apply_all, apply_plan, Tally, tally, continue, ◌>>=◌, pure,
}

-- Both counts of a tally.
abbrev pub total : Tally → ℕ
total counts = counts.0 + counts.1

total-tally :
    (counts : Tally) (done : Bool)
    → total counts + 1 < 2 ^ 32
    → total (tally counts done) ≡ total counts + 1
unfolding tally
total-tally (created, skipped) true h = omega arith
total-tally (created, skipped) false h = omega arith

module _ {W : Type 0} where
  -- What holds of the answer of a call, when it has one.
  record Returns {A : Type 0} (Q : A → Type 0) (write : Write W A) : Type 0 where
    returned : (w : W) (a : A) → (write w).0 ≡ ok a → Q a

  continue_returned :
      {A B : Type 0} {Q : A → Type 0} {R : B → Type 0} (f : A → Write W B) (r : StoreResult A × W)
      → ((a : A) → r.0 ≡ ok a → Q a)
      → ((a : A) → Q a → Returns R (f a))
      → (b : B) → (continue f r).0 ≡ ok b
      → R b
  continue_returned f (err e, w) hm hf b h = absurd cc
  continue_returned f (ok a, w) hm hf b h = (hf a (hm a refl)).returned w b h

  bind-Returns :
      {A B : Type 0} {Q : A → Type 0} {R : B → Type 0} {m : Write W A} {f : A → Write W B}
      → Returns Q m
      → ((a : A) → Q a → Returns R (f a))
      → Returns R (m >>= f)
  bind-Returns {m = m} {f = f} hm hf = record {
    returned = λ w b h. continue_returned f (m w) (hm.returned w) hf b h;
  }

  pure-Returns : {A : Type 0} {Q : A → Type 0} (a : A) → Q a → Returns Q (pure a)
  pure-Returns {Q = Q} a q = record { returned = λ w b h. let e : a ≡ b = cc in rw (← e) q }

  any-Returns : {A : Type 0} (m : Write W A) → Returns (λ _. Unit {0}) m
  any-Returns m = record { returned = λ w a h. tt }

  weaken :
      {A : Type 0} {Q R : A → Type 0} {m : Write W A}
      → ((a : A) → Q a → R a)
      → Returns Q m
      → Returns R m
  weaken imp h = record { returned = λ w a e. imp a (h.returned w a e) }

  apply_all-Returns :
      {A : Type 0} (step : A → Write W Bool) (entries : List A) (counts : Tally)
      → total counts + length entries < 2 ^ 32
      → Returns
          (λ after. total after ≡ total counts + length entries)
          (apply_all step entries counts)
  unfolding apply_all
  apply_all-Returns step [] counts h = pure-Returns counts (omega arith)
  apply_all-Returns step (a ∷ entries) counts h = bind-Returns (any-Returns (step a)) λ done _.
      let one = total-tally counts done (omega arith) in
      weaken (λ after e. omega (arith, one, e))
        (apply_all-Returns step entries (tally counts done) (omega (arith, one)))

-- The report accounts for each entry of the plan.
abbrev pub IsCounted : {T : Type 0} → BootstrapPlan T → BootstrapReport → Type 0
IsCounted plan report =
    (report.created.policies + report.skipped.policies ≡ length plan.policies)
    × (report.created.groups + report.skipped.groups ≡ length plan.groups)
    × (report.created.users + report.skipped.users ≡ length plan.users)
    × (report.created.memberships + report.skipped.memberships ≡ length plan.memberships)
    × (report.created.attachments + report.skipped.attachments
        ≡ length plan.user_policies + length plan.group_policies)
    × (report.created.credentials + report.skipped.credentials ≡ length plan.credentials)

-- The counts of a plan fit in a `u32`.
abbrev pub IsCountable : {T : Type 0} → BootstrapPlan T → Type 0
IsCountable plan =
    (length plan.policies < 2 ^ 32)
    × (length plan.groups < 2 ^ 32)
    × (length plan.users < 2 ^ 32)
    × (length plan.memberships < 2 ^ 32)
    × (length plan.user_policies + length plan.group_policies < 2 ^ 32)
    × (length plan.credentials < 2 ^ 32)

module _ {T W : Type 0} (writer : BootstrapWriter T W) where
  apply_plan-Returns :
      (plan : BootstrapPlan T)
      → IsCountable plan
      → Returns (IsCounted plan) (apply_plan writer plan)
  unfolding apply_plan
  apply_plan-Returns plan (h0, h1, h2, h3, h4, h5) =
      bind-Returns (apply_all-Returns _ plan.policies (0, 0) (omega arith)) λ policies e0.
        bind-Returns (apply_all-Returns _ plan.groups (0, 0) (omega arith)) λ groups e1.
          bind-Returns (apply_all-Returns _ plan.users (0, 0) (omega arith)) λ users e2.
            bind-Returns (apply_all-Returns _ plan.memberships (0, 0) (omega arith))
              λ memberships e3.
                bind-Returns (apply_all-Returns _ plan.user_policies (0, 0) (omega arith))
                  λ for_users e4.
                    bind-Returns (apply_all-Returns _ plan.group_policies for_users (omega arith))
                      λ attachments e5.
                        bind-Returns (apply_all-Returns _ plan.credentials (0, 0) (omega arith))
                          λ credentials e6. pure-Returns _ (
                            omega arith,
                            omega arith,
                            omega arith,
                            omega arith,
                            omega arith,
                            omega arith,
                          )

-- Whatever the store, the report of a run that succeeds counts each entry of the plan once, as
-- created or as skipped, when no kind of the plan has 2^32 entries.
pub apply_plan-IsCounted :
    {T W : Type 0} (writer : BootstrapWriter T W) (plan : BootstrapPlan T) (w : W)
    (report : BootstrapReport)
    → IsCountable plan
    → (apply_plan writer plan w).0 ≡ ok report
    → IsCounted plan report
apply_plan-IsCounted writer plan w report h e =
    (apply_plan-Returns writer plan h).returned w report e
