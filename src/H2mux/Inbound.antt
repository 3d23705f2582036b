-- ===== src/H2mux/Inbound.antt =====
-- `h2InboundSession` of v4/mux/h2mux/connect.go: a connection whose handshake runs when it is first
-- needed. What `Server` answers when it runs is an argument, and so is what the session answers then.
use tlswrapper.Base.{
  ℕ, ◌+◌, ◌≡◌, ◌⊎◌, refl, ◌∙◌, inl, inr, if◌then◌else◌, Bool, true, false, Option, none, some, List,
  [], ◌∷◌, arith, Option-cases,
}

-- `ss` is the session and `handshake_err` the error, which are stored before `handshake_done`.
-- `servers` are the calls of `Server`, `conn_closes` and `ss_closes` those of the two `Close`.
pub record Inbound : Type 0 where
  pub handshake_done : Bool
  pub ss : Option ℕ
  pub handshake_err : Option ℕ
  pub servers : ℕ
  pub conn_closes : ℕ
  pub ss_closes : ℕ

unfoldable pub new_inbound : Inbound
new_inbound = record {
  handshake_done = false;
  ss = none;
  handshake_err = none;
  servers = 0;
  conn_closes = 0;
  ss_closes = 0;
}

-- The error, if any. The mutex is held throughout.
unfoldable pub do_handshake : ℕ ⊎ ℕ → Inbound → Option ℕ × Inbound
do_handshake answer s = if s.handshake_done then (s.handshake_err, s) else elim answer [
  | inl e ↦ (
    some e,
    record s {
      servers = s.servers + 1;
      conn_closes = s.conn_closes + 1;
      handshake_err = some e;
      handshake_done = true;
    },
  )
  | inr i ↦ (none, record s { servers = s.servers + 1; ss = some i; handshake_done = true })
]

-- `delegate`: the error, or the session, which is none only where the code would call a nil one.
unfoldable pub delegate : ℕ ⊎ ℕ → Inbound → (ℕ ⊎ Option ℕ) × Inbound
delegate answer s =
    let (failed, s') = do_handshake answer s in
    elim failed [ some e ↦ (inl e, s') | none ↦ (inr s'.ss, s') ]

-- `Open` and `Accept`: `inner` is what the session answers.
unfoldable pub through : ℕ ⊎ ℕ → (ℕ → ℕ ⊎ ℕ) → Inbound → (ℕ ⊎ Option (ℕ ⊎ ℕ)) × Inbound
through answer inner s =
    let (r, s') = delegate answer s in
    elim r [
      | inl e ↦ (inl e, s')
      | inr none ↦ (inr none, s')
      | inr (some i) ↦ (inr (some (inner i)), s')
    ]

unfoldable pub close_inbound : Inbound → Inbound
close_inbound s =
    if s.handshake_done
    then elim s.ss [ none ↦ s | some i ↦ record s { ss_closes = s.ss_closes + 1 } ]
    else record s { conn_closes = s.conn_closes + 1 }

-- `IsClosed`, `CloseChan`, `IdleChan`, `Stats` and `PeerIdentity`: the session's answer, or a default.
unfoldable pub ask {ℓ} : {A : Type ℓ} → (ℕ → A) → A → Inbound → A
ask inner default s =
    if s.handshake_done then elim s.ss [ none ↦ default | some i ↦ inner i ] else default

pub data Call : Type 0 where
  handshakes : (answer : ℕ ⊎ ℕ) → Call
  goes_through : (answer : ℕ ⊎ ℕ) (inner : ℕ → ℕ ⊎ ℕ) → Call
  closes : Call

unfoldable pub call : Call → Inbound → Inbound
call (handshakes answer) s = (do_handshake answer s).1
call (goes_through answer inner) s = (through answer inner s).1
call closes s = close_inbound s

unfoldable pub calls : List Call → Inbound → Inbound
calls [] s = s
calls (c ∷ cs) s = calls cs (call c s)

-- `Server` has run once if the handshake is over, and there is no error before that.
abbrev Shaken : Inbound → Type 0
Shaken s =
    (s.servers ≡ (if s.handshake_done then 1 else 0))
    × (s.handshake_done ≡ false → s.handshake_err ≡ none)

-- What a handshake leaves is there for good.
abbrev Kept : Inbound → Inbound → Type 0
Kept s t =
    (t.handshake_done ≡ true)
    × (t.servers ≡ s.servers)
    × (t.ss ≡ s.ss)
    × (t.handshake_err ≡ s.handshake_err)

through_state :
    (answer : ℕ ⊎ ℕ) (inner : ℕ → ℕ ⊎ ℕ) (s : Inbound)
    → (through answer inner s).1 ≡ (do_handshake answer s).1
unfolding through delegate
through_state answer inner s = elim (Option-cases (do_handshake answer s).0) [
  | inr (e, f) ↦ ground (arith, f)
  | inl n ↦ elim (Option-cases (do_handshake answer s).1.ss) [
    | inl m ↦ ground (arith, n, m)
    | inr (i, m) ↦ ground (arith, n, m)
  ]
]

close_inbound-same :
    (s : Inbound)
    → ((close_inbound s).handshake_done ≡ s.handshake_done)
      × ((close_inbound s).servers ≡ s.servers)
      × ((close_inbound s).ss ≡ s.ss)
      × ((close_inbound s).handshake_err ≡ s.handshake_err)
unfolding close_inbound
close_inbound-same s = elim (Option-cases s.ss) [
  | inl n ↦ ground (arith, n)
  | inr (i, e) ↦ ground (arith, e)
]

do_handshake_again :
    (answer : ℕ ⊎ ℕ) (s : Inbound)
    → s.handshake_done ≡ true
    → do_handshake answer s ≡ (s.handshake_err, s)
unfolding do_handshake
do_handshake_again answer s d = rw (do_handshake, d) refl

do_handshake-Shaken : (answer : ℕ ⊎ ℕ) (s : Inbound) → Shaken s → Shaken (do_handshake answer s).1
unfolding do_handshake
do_handshake-Shaken (inl e) s h = ground (arith, h)
do_handshake-Shaken (inr i) s h = ground (arith, h)

-- The result of a handshake is the stored error.
do_handshake-result :
    (answer : ℕ ⊎ ℕ) (s : Inbound)
    → Shaken s
    → ((do_handshake answer s).0 ≡ (do_handshake answer s).1.handshake_err)
      × ((do_handshake answer s).1.handshake_done ≡ true)
unfolding do_handshake
do_handshake-result (inl e) s h = ground (arith, h)
do_handshake-result (inr i) s h = ground (arith, h)

call-Shaken : (c : Call) (s : Inbound) → Shaken s → Shaken (call c s)
unfolding call
call-Shaken (handshakes answer) s h = do_handshake-Shaken answer s h
call-Shaken (goes_through answer inner) s h =
    rw (through_state answer inner s) (do_handshake-Shaken answer s h)
call-Shaken closes s h = ground (arith, h, close_inbound-same s)

calls-Shaken : (cs : List Call) (s : Inbound) → Shaken s → Shaken (calls cs s)
unfolding calls
calls-Shaken [] s h = h
calls-Shaken (c ∷ cs) s h = calls-Shaken cs (call c s) (call-Shaken c s h)

call-Kept : (c : Call) (s t : Inbound) → Kept s t → Kept s (call c t)
unfolding call
call-Kept (handshakes answer) s t k = rw (call, do_handshake_again answer t k.0) k
call-Kept (goes_through answer inner) s t k =
    rw (call, through_state answer inner t, do_handshake_again answer t k.0) k
call-Kept closes s t k = ground (arith, k, close_inbound-same t)

calls-Kept : (cs : List Call) (s t : Inbound) → Kept s t → Kept s (calls cs t)
unfolding calls
calls-Kept [] s t k = k
calls-Kept (c ∷ cs) s t k = calls-Kept cs s (call c t) (call-Kept c s t k)

new_inbound-Shaken : Shaken new_inbound
unfolding new_inbound
new_inbound-Shaken = (refl, λ e. refl)

-- After any calls and a Handshake, and any calls after that, among them Open, Accept and Close: the
-- handshake has run once in all, and another Handshake returns what the first did and changes
-- nothing; the session is the same.
pub handshake_runs_once :
    (cs ds : List Call) (a b : ℕ ⊎ ℕ)
    → let (r, first) = do_handshake a (calls cs new_inbound) in
      let later = calls ds first in
      (later.servers ≡ 1) × (do_handshake b later ≡ (r, later)) × (later.ss ≡ first.ss)
handshake_runs_once cs ds a b =
    let s = calls cs new_inbound in
    let shaken = calls-Shaken cs new_inbound new_inbound-Shaken in
    let first = (do_handshake a s).1 in
    let (result, done) = do_handshake-result a s shaken in
    let ran = do_handshake-Shaken a s shaken in
    let k = calls-Kept ds first first (done, refl, refl, refl) in
    let later = calls ds first in
    (ground (arith, ran, done, k), do_handshake_again b later k.0 ∙ rw (k.3, result) refl, k.2)
