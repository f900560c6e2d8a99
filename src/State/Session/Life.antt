-- ===== src/State/Session/Life.antt =====
-- The life of a session (src/state/session.rs): activity over time.
use polyleverage.Base.{ℕ, ◌≤◌, ◌≡◌, true, List, [], ◌∷◌, arith}
use polyleverage.State.Session.{Session, is_active, record_intent, revoke}

-- What the program does to a session once it exists.
pub data Op : Type 0 where
  post : ℕ → Op
  revokes : Op

unfoldable pub apply : Op → Session → Session
apply (post amount) s = (record_intent amount s).1
apply revokes s = revoke s

unfoldable pub run : List Op → Session → Session
run [] s = s
run (o ∷ os) s = run os (apply o s)

apply-is_active :
    (o : Op) (s : Session) (now later : ℕ)
    → now ≤ later
    → is_active later (apply o s) ≡ true
    → is_active now s ≡ true
unfolding apply is_active record_intent revoke
apply-is_active (post amount) s now later h e = ground arith
apply-is_active revokes s now later h e = ground arith

-- A session that is active after any posts and revocations was active at every slot before: one that
-- is revoked, expired or used up stays so.
pub run-is_active :
    (os : List Op) (s : Session) (now later : ℕ)
    → now ≤ later
    → is_active later (run os s) ≡ true
    → is_active now s ≡ true
unfolding run
run-is_active [] s now later h e = unfold is_active in ground arith
run-is_active (o ∷ os) s now later h e =
    apply-is_active o s now later h (run-is_active os (apply o s) later later (omega arith) e)
