-- ===== src/Authn/Browser/Steps.antt =====
-- crates/lakefs-authn/src/routes/browser.rs: the steps of a handler that ended well.
use lakefs_auth.Common.{◌≡◌, refl, Bool, true, false, arith, if◌then◌else◌}
use lakefs_auth.Std.Order.{text_ord}
use lakefs_auth.Std.Result.{Result, ok, err, map_err-ok}
use lakefs_auth.Core.Error.{ApiError}
use lakefs_auth.Authn.Browser.{AppState, LoginOutcome, Act, failing, continue, first_mapped}

pub continue-ok :
    {A B W : Type 0} (f : A → Act W B) (r : Result A ApiError × W) (b : B)
    → (continue f r).0 ≡ ok b
    → (a : A) × (r.0 ≡ ok a) × ((f a r.1).0 ≡ ok b)
continue-ok f (ok a, w) b h = (a, refl, h)
continue-ok f (err e, w) b h = absurd (ground arith)

pub first_mapped-ok :
    {A E W : Type 0} (f : E → ApiError) (r : Result A E × W) (a : A)
    → (first_mapped f r).0 ≡ ok a
    → r.0 ≡ ok a
first_mapped-ok f (r, w) a h = map_err-ok f r a h

pub first_mapped-state :
    {A E W : Type 0} (f : E → ApiError) (r : Result A E × W) → (first_mapped f r).1 ≡ r.1
first_mapped-state f (r, w) = refl

pub fresh-ok :
    (expired : Bool) (e : ApiError) (u : Unit {0})
    → (if expired then err e else ok tt) ≡ ok u
    → expired ≡ false
fresh-ok true e u h = absurd (ground arith)
fresh-ok false e u h = refl

pub failing-ok :
    {W D Tokens : Type 0} (app : AppState W D Tokens) (consume : Bool)
    (r : Result LoginOutcome ApiError × W) (outcome : LoginOutcome)
    → (failing app consume r).0 ≡ ok outcome
    → r.0 ≡ ok outcome
failing-ok app consume (ok o, w) outcome h = ground (arith, h)
failing-ok app consume (err e, w) outcome h = absurd (ground arith)
