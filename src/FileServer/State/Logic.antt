-- ===== src/FileServer/State/Logic.antt =====
-- Rules for the handler monad: a precondition, a postcondition for a handler that goes on, and one
-- for a handler that has returned early or died.
use eecs.Base.{ℕ, ◌≡◌, ◌≢◌, refl, Bool, true, false, Option, none, some, if◌then◌else◌}
use eecs.FileServer.Layout.{decode_inode}
use eecs.FileServer.State.{
  Event, Server, Outcome, done, returned, crashed, M, and_then, ◌>>=◌, pure, leave, or_leave,
  require, emit, event, release, read_inode, get_disk,
}

abbrev pub Post :
    {A : Type 0} → (A → Server → Type 0) → (Server → Type 0) → Outcome A × Server → Type 0
Post Q R (done a, s) = Q a s
Post Q R (returned, s) = R s
Post Q R (crashed, s) = R s

-- From a state with `P`, the program goes on with `Q` or stops with `R`.
pub record Ensures {A : Type 0} (P : Server → Type 0) (m : M A) (Q : A → Server → Type 0)
    (R : Server → Type 0) : Type 0 where
  pub run : (s : Server) → P s → Post Q R (m s)

module _ {A : Type 0} where
  -- What holds on every way out.
  pub Post-any : (K : Server → Type 0) (r : Outcome A × Server) → Post (λ _. K) K r → K r.1
  Post-any K (done a, s) h = h
  Post-any K (returned, s) h = h
  Post-any K (crashed, s) h = h

  -- What holds if the program has not gone on.
  pub Post-stopped :
      (Q : A → Server → Type 0) (R : Server → Type 0) (r : Outcome A × Server)
      → Post Q R r
      → ((a : A) → r.0 ≢ done a)
      → R r.1
  Post-stopped Q R (done a, s) h stopped = absurd (stopped a refl)
  Post-stopped Q R (returned, s) h stopped = h
  Post-stopped Q R (crashed, s) h stopped = h

  pub Post-mono :
      (Q Q' : A → Server → Type 0) (R R' : Server → Type 0) (r : Outcome A × Server)
      → ((a : A) (s : Server) → Q a s → Q' a s)
      → ((s : Server) → R s → R' s)
      → Post Q R r
      → Post Q' R' r
  Post-mono Q Q' R R' (done a, s) f g h = f a s h
  Post-mono Q Q' R R' (returned, s) f g h = g s h
  Post-mono Q Q' R R' (crashed, s) f g h = g s h

  Post-release :
      (e : Event) (Q Q' : A → Server → Type 0) (R R' : Server → Type 0) (r : Outcome A × Server)
      → ((a : A) (s : Server) → Q a s → Q' a (emit e s))
      → ((s : Server) → R s → R' (emit e s))
      → Post Q R r
      → Post Q' R' (release e r)
  Post-release e Q Q' R R' (done a, s) f g h = f a s h
  Post-release e Q Q' R R' (returned, s) f g h = g s h
  Post-release e Q Q' R R' (crashed, s) f g h = g s h

  -- A guarded scope, for any pair of lock and unlock events.
  pub Ensures-scope :
      {P P' R R' : Server → Type 0} {Q Q' : A → Server → Type 0} (on off : Event) (m : M A)
      → ((s : Server) → P s → P' (emit on s))
      → Ensures P' m Q R
      → ((a : A) (s : Server) → Q a s → Q' a (emit off s))
      → ((s : Server) → R s → R' (emit off s))
      → Ensures P (λ s. release off (m (emit on s))) Q' R'
  Ensures-scope {R} {R'} {Q} {Q'} on off m enter body leaves fails = record {
    run = λ s p.
        Post-release off Q Q' R R' (m (emit on s)) leaves fails (body.run (emit on s) (enter s p));
  }

  pub Ensures-if :
      {P R : Server → Type 0} {Q : A → Server → Type 0} (b : Bool) (m n : M A)
      → (b ≡ true → Ensures P m Q R)
      → (b ≡ false → Ensures P n Q R)
      → Ensures P (if b then m else n) Q R
  Ensures-if true m n f g = f refl
  Ensures-if false m n f g = g refl

  pub Ensures-mono :
      {P P' R R' : Server → Type 0} {Q Q' : A → Server → Type 0} (m : M A)
      → ((s : Server) → P s → P' s)
      → ((a : A) (s : Server) → Q a s → Q' a s)
      → ((s : Server) → R s → R' s)
      → Ensures P' m Q R
      → Ensures P m Q' R'
  Ensures-mono {R} {R'} {Q} {Q'} m enter f g body = record {
    run = λ s p. Post-mono Q Q' R R' (m s) f g (body.run s (enter s p));
  }

module _ {A B : Type 0} where
  Post-bind :
      (Q : A → Server → Type 0) (Q' : B → Server → Type 0) (R : Server → Type 0)
      (r : Outcome A × Server) (k : A → M B)
      → Post Q R r
      → ((a : A) (s : Server) → Q a s → Post Q' R (k a s))
      → Post Q' R (and_then r k)
  Post-bind Q Q' R (done a, s) k h f = f a s h
  Post-bind Q Q' R (returned, s) k h f = h
  Post-bind Q Q' R (crashed, s) k h f = h

  pub Ensures-bind :
      {P R : Server → Type 0} {Q : A → Server → Type 0} {Q' : B → Server → Type 0} (m : M A)
      (k : A → M B)
      → Ensures P m Q R
      → ((a : A) → Ensures (Q a) (k a) Q' R)
      → Ensures P (m >>= k) Q' R
  Ensures-bind {R} {Q} {Q'} m k h f = record {
    run = λ s p. Post-bind Q Q' R (m s) k (h.run s p) (λ a s' q. (f a).run s' q);
  }

-- The programs that only change the state in one way, and the ones that stop.
module _ {A : Type 0} where
  pub Ensures-pure :
      {P R : Server → Type 0} {Q : A → Server → Type 0} (a : A)
      → ((s : Server) → P s → Q a s)
      → Ensures P (pure a) Q R
  Ensures-pure a f = record { run = f }

  pub Ensures-leave :
      {P R : Server → Type 0} {Q : A → Server → Type 0}
      → ((s : Server) → P s → R s)
      → Ensures P leave Q R
  Ensures-leave f = record { run = f }

  pub Ensures-or_leave :
      {P R : Server → Type 0} (o : Option A)
      → ((s : Server) → P s → R s)
      → Ensures P (or_leave o) (λ a s. (o ≡ some a) × P s) R
  Ensures-or_leave none f = record { run = f }
  Ensures-or_leave (some a) f = record { run = λ s p. (refl, p) }

pub Ensures-require :
    {P R : Server → Type 0} (b : Bool)
    → ((s : Server) → P s → R s)
    → Ensures P (require b) (λ _ s. (b ≡ true) × P s) R
Ensures-require true f = record { run = λ s p. (refl, p) }
Ensures-require false f = record { run = f }

pub Ensures-event :
    {P R : Server → Type 0} {Q : Server → Type 0} (e : Event)
    → ((s : Server) → P s → Q (emit e s))
    → Ensures P (event e) (λ _. Q) R
Ensures-event e f = record { run = f }

-- A read of the disk.
pub Ensures-read_inode :
    {P R : Server → Type 0} (b : ℕ)
    → Ensures P (read_inode b) (λ i s. (i ≡ decode_inode (s.disk b)) × P s) R
Ensures-read_inode b = record { run = λ s p. (refl, p) }

pub Ensures-get_disk : {P R : Server → Type 0} → Ensures P get_disk (λ d s. (d ≡ s.disk) × P s) R
Ensures-get_disk = record { run = λ s p. (refl, p) }
