-- ===== src/Machine/Observe.antt =====
-- What a trace shows: the entries that each event contributes, newest first.
use rocker.Prelude.{ℕ, ◌≡◌, refl, List, [], ◌∷◌, ◌++◌}
use rocker.Bytes.{Bytes}
use rocker.Call.{
  Env, Call, Reply, done, Event, send, recv, write_all, kill_sigkill, sendmsg, close, OpenMode,
  open_file,
}
use rocker.Machine.{Machine, sys_call}
use rocker.Machine.Keeps.{Triple, Stays}

-- What one call shows, whatever its answer is taken for.
abbrev pub View : Type 0 → Type 0
View X = (c : Call) → Reply c → List X

unfoldable pub observe : {X : Type 0} → View X → List Event → List X
observe f [] = []
observe f (e ∷ t) = f e.request e.reply ++ observe f t

abbrev pub Seen : {X : Type 0} → View X → List X → Machine → Type 0
Seen f l s = observe f s.trace ≡ l

-- A call that shows nothing.
pub Seen-call :
    {X : Type 0} {R : Machine → Type 0} (f : View X) (l : List X) (env : Env) (c : Call)
    → ((r : Reply c) → f c r ≡ [])
    → Stays (Seen f l) R (sys_call env c)
unfolding sys_call observe
Seen-call f l env c h = record { at = λ s p. rw (h (env s.trace c)) p }

-- A call that shows something.
pub Seen-call_shown :
    {X : Type 0} (f : View X) (l : List X) (env : Env) (c : Call)
    → Triple (Seen f l) (sys_call env c) (λ r. Seen f (f c r ++ l)) (λ _ _. ⊥) (λ _. ⊥)
unfolding sys_call observe
Seen-call_shown f l env c = record { at = λ s p. rw p refl }

-- A message that was sent: a `send` that did not fail.
abbrev pub sent_by : View Bytes
sent_by (send fd msg) (done _) = msg ∷ []
sent_by _ _ = []

-- A message that was received.
abbrev pub received_by : View Bytes
received_by (recv fd len) (done msg) = msg ∷ []
received_by _ _ = []

-- A process that a signal was sent to, delivered or not.
abbrev pub killed_by : View ℕ
killed_by (kill_sigkill pid) _ = pid ∷ []
killed_by _ _ = []

-- A text that was written.
abbrev pub written_by : View Bytes
written_by (write_all fd text) (done _) = text ∷ []
written_by _ _ = []

-- The bytes of a reply to a client, tried or sent.
abbrev pub replied_by : View (List Bytes × List ℕ)
replied_by (sendmsg fd iov fds peer) _ = (iov, fds) ∷ []
replied_by _ _ = []

-- A descriptor that was closed, whatever `close` answered.
abbrev pub closed_by : View ℕ
closed_by (close fd) _ = fd ∷ []
closed_by _ _ = []

-- What a process does to the world around it, as far as the start of a rocker goes.
pub data Deed : Type 0 where
  got wrote : Bytes → Deed
  opened : OpenMode → Bytes → Deed
  killed : ℕ → Deed

-- The messages received, the files opened and the texts written, where the call did not fail, and the
-- processes killed.
abbrev pub deeds_by : View Deed
deeds_by (recv fd len) (done msg) = got msg ∷ []
deeds_by (open_file mode path) (done fd) = opened mode path ∷ []
deeds_by (write_all fd text) (done _) = wrote text ∷ []
deeds_by (kill_sigkill pid) _ = killed pid ∷ []
deeds_by _ _ = []

abbrev pub Deeds : List Deed → Machine → Type 0
Deeds = Seen deeds_by
