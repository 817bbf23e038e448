-- ===== src/Batch/Session/Keeps.antt =====
-- What holds of the session whichever way a handler of src/batch.rs ends: of any session, of one that goes
-- on, and of one with an outcome.
use woodland_sh.Base.{Bool, true, false, Option, none, some, Result, ok, err, ◌≡◌, refl}
use woodland_sh.Batch.Session.{SessionError, RenewalOutcome, SessionLibrary}
use woodland_sh.Batch.Session.Handlers.{
  Session, Next, continues, returned, failed, try, need, fail_if, skip_if,
}

pub data Keeps (lib : SessionLibrary) (P R : Session lib → Type 0)
    (Q : RenewalOutcome → Session lib → Type 0) : Next lib → Type 0 where
  on : {s : Session lib} → R s → Keeps lib P R Q (continues s)
  back :
      {outcome : RenewalOutcome} {s : Session lib}
      → P s
      → Q outcome s
      → Keeps lib P R Q (returned outcome s)
  over : {e : SessionError} {s : Session lib} → P s → Keeps lib P R Q (failed e s)

module _ (lib : SessionLibrary) {P R : Session lib → Type 0}
    {Q : RenewalOutcome → Session lib → Type 0} where
  pub Keeps-try :
      {E A : Type 0} (wrap : E → SessionError) (r : Result E A) (s : Session lib) (k : A → Next lib)
      → P s
      → ((a : A) → r ≡ ok a → Keeps lib P R Q (k a))
      → Keeps lib P R Q (try lib wrap r s k)
  Keeps-try wrap (ok a) s k p h = h a refl
  Keeps-try wrap (err e) s k p h = over p

  pub Keeps-need :
      {A : Type 0} (o : Option A) (e : SessionError) (s : Session lib) (k : A → Next lib)
      → P s
      → ((a : A) → o ≡ some a → Keeps lib P R Q (k a))
      → Keeps lib P R Q (need lib o e s k)
  Keeps-need none e s k p h = over p
  Keeps-need (some a) e s k p h = h a refl

  pub Keeps-fail_if :
      (t : Bool) (e : SessionError) (s : Session lib) (k : Next lib)
      → P s
      → (t ≡ false → Keeps lib P R Q k)
      → Keeps lib P R Q (fail_if lib t e s k)
  Keeps-fail_if true e s k p h = over p
  Keeps-fail_if false e s k p h = h refl

  pub Keeps-skip_if :
      (t : Bool) (s : Session lib) (k : Next lib)
      → R s
      → (t ≡ false → Keeps lib P R Q k)
      → Keeps lib P R Q (skip_if lib t s k)
  Keeps-skip_if true s k p h = on p
  Keeps-skip_if false s k p h = h refl
