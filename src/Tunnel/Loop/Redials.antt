-- ===== src/Tunnel/Loop/Redials.antt =====
-- How the loop brings a lost session back.
use tlswrapper.Base.{ℕ, ◌≡◌, is_empty, true, false, none, some}
use tlswrapper.Tunnel.{Tunnel, World}
use tlswrapper.Tunnel.Redial.{Result, ok}
use tlswrapper.Tunnel.Redial.Outcomes.{all_spawned}
use tlswrapper.Tunnel.Loop.{Answers}

-- The answers to a dial that succeeds with session `j`.
abbrev pub succeeds : ℕ → ℕ → Answers
succeeds j draw = record {
  no_redial = false;
  has_ctx = true;
  answer = some j;
  go = all_spawned;
  draw = draw;
}

-- The tunnel has no session, and one to dial.
record Waiting (t : Tunnel) : Type 0 where
  lost : t.ss ≡ none
  named : is_empty t.dial_addr ≡ false
  running : t.closed_sig ≡ false
  unlocked : t.dialing ≡ false

-- What a successful dial leaves.
record Connected (j : ℕ) (r : Result ℕ × Tunnel × World) : Type 0 where
  result : r.0 ≡ ok j
  current : r.1.ss ≡ some j
  live : (r.2.sessions j).is_closed ≡ false
