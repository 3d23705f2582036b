-- ===== src/Server/Stats/Sessions.antt =====
-- The sessions that `Server.Stats` lists.
use tlswrapper.Base.{
  ℕ, ◌≤◌, ◌≡◌, refl, inl, inr, Str, is_empty, str_eq, str_eq_iff, ltb, ltb→lt, if◌then◌else◌, true,
  false, Option, none, some, List, [], ◌∷◌, map, All, arith, Bool-cases, subst,
}
use tlswrapper.Tunnel.{Tunnel, World}
use tlswrapper.Latency.{LatencyRing}
use tlswrapper.Server.Stats.Sums.{Totals, server_stats-Totals}
use tlswrapper.Server.Stats.{
  SessionStats, ServerStats, Counters, tunnel_stats, keep_latest, add_session_stats, add_all,
  start_stats, server_stats,
}

-- All that the list has of a peer.
abbrev pub entries : Str → List SessionStats → List SessionStats
entries id [] = []
entries id (p ∷ ps) = if str_eq p.peer_identity id then p ∷ entries id ps else entries id ps

abbrev pub at_most_one : Option SessionStats → List SessionStats
at_most_one none = []
at_most_one (some p) = p ∷ []

-- The later of two snapshots, the first where they are equal.
abbrev pub later : Option SessionStats → SessionStats → Option SessionStats
later none v = some v
later (some p) v = if ltb p.last_changed v.last_changed then some v else some p

-- The latest snapshot of a peer among those after `o`.
abbrev pub latest : Str → List SessionStats → Option SessionStats → Option SessionStats
latest id [] o = o
latest id (v ∷ vs) o = latest id vs (if str_eq v.peer_identity id then later o v else o)

same_id : (v : SessionStats) → str_eq v.peer_identity v.peer_identity ≡ true
same_id v = (str_eq_iff v.peer_identity v.peer_identity).1 refl

-- A list with one entry of a peer at most has one after that peer's snapshot is kept: the later.
keep_latest-entries_same :
    (v : SessionStats) (o : Option SessionStats) (ps : List SessionStats)
    → entries v.peer_identity ps ≡ at_most_one o
    → entries v.peer_identity (keep_latest v ps) ≡ at_most_one (later o v)
unfolding keep_latest
keep_latest-entries_same v none [] h = rw (same_id v) refl
keep_latest-entries_same v (some q) [] h = cc
keep_latest-entries_same v o (p ∷ ps) h =
    elim (Bool-cases (str_eq p.peer_identity v.peer_identity)) [
      | inl y ↦ found v o p ps y (rw y at h)
      | inr n ↦ rw (n, keep_latest) (rw n (keep_latest-entries_same v o ps (rw n at h)))
    ]
  where
    found :
        (v : SessionStats) (o : Option SessionStats) (p : SessionStats) (ps : List SessionStats)
        → str_eq p.peer_identity v.peer_identity ≡ true
        → p ∷ entries v.peer_identity ps ≡ at_most_one o
        → entries v.peer_identity (
            if str_eq p.peer_identity v.peer_identity
            then (if ltb p.last_changed v.last_changed then v ∷ ps else p ∷ ps)
            else p ∷ keep_latest v ps)
          ≡ at_most_one (later o v)
    found v none p ps y h = cc
    found v (some q) p ps y h =
        let same : p ≡ q = cc in
        let rest : entries v.peer_identity ps ≡ [] = cc in
        elim (Bool-cases (ltb p.last_changed v.last_changed)) [
          | inl l ↦ rw (y, l, same_id v, rest, ← same, l) refl
          | inr m ↦ rw (y, m, y, rest, ← same, m) refl
        ]

str_eq_trans : (a b c : Str) → str_eq a b ≡ true → str_eq b c ≡ false → str_eq a c ≡ false
str_eq_trans a b c e f = let same = (str_eq_iff a b).0 e in rw same f

keep_latest-entries_other :
    (id : Str) (v : SessionStats) (ps : List SessionStats)
    → str_eq v.peer_identity id ≡ false
    → entries id (keep_latest v ps) ≡ entries id ps
unfolding keep_latest
keep_latest-entries_other id v [] n = rw n refl
keep_latest-entries_other id v (p ∷ ps) n =
    elim (Bool-cases (str_eq p.peer_identity v.peer_identity)) [
      | inl y ↦ ground (arith, y, n, str_eq_trans p.peer_identity v.peer_identity id y n)
      | inr m ↦ ground (arith, m, keep_latest-entries_other id v ps n)
    ]

add_own-entries :
    (v : SessionStats) (s : ServerStats) (o : Option SessionStats)
    → is_empty v.peer_identity ≡ false
    → entries v.peer_identity s.sessions ≡ at_most_one o
    → entries v.peer_identity (add_session_stats v s).sessions ≡ at_most_one (later o v)
unfolding add_session_stats
add_own-entries v s o h e = rw h (keep_latest-entries_same v o s.sessions e)

add_session_stats-entries :
    (id : Str) (v : SessionStats) (s : ServerStats) (o : Option SessionStats)
    → is_empty id ≡ false
    → entries id s.sessions ≡ at_most_one o
    → entries id (add_session_stats v s).sessions
      ≡ at_most_one (if str_eq v.peer_identity id then later o v else o)
unfolding add_session_stats
add_session_stats-entries id v s o h e = elim (Bool-cases (str_eq v.peer_identity id)) [
  | inl y ↦
      let same : v.peer_identity ≡ id = (str_eq_iff v.peer_identity id).0 y in
      rw y (
        subst (λ k. entries k (add_session_stats v s).sessions ≡ at_most_one (later o v)) same
          (add_own-entries v s o (rw same h) (rw same e)))
  | inr n ↦ rw n (ground (arith, n, keep_latest-entries_other id v s.sessions n, e))
]

add_all-entries :
    (id : Str) (vs : List SessionStats) (s : ServerStats) (o : Option SessionStats)
    → is_empty id ≡ false
    → entries id s.sessions ≡ at_most_one o
    → entries id (add_all vs s).sessions ≡ at_most_one (latest id vs o)
unfolding add_all
add_all-entries id [] s o h e = e
add_all-entries id (v ∷ vs) s o h e =
    add_all-entries id vs (add_session_stats v s)
      (if str_eq v.peer_identity id then later o v else o) h
      (add_session_stats-entries id v s o h e)

server_stats-entries :
    (listener : Option (ℕ × ℕ)) (c : Counters) (w : World) (tunnels : List (Tunnel × LatencyRing))
    (id : Str)
    → is_empty id ≡ false
    → entries id (server_stats listener c w tunnels).sessions
      ≡ at_most_one (latest id (map (tunnel_stats w) tunnels) none)
unfolding server_stats start_stats
server_stats-entries listener c w tunnels id h =
    add_all-entries id (map (tunnel_stats w) tunnels) (start_stats listener c w) none h refl

-- There is an entry, and it is no older than `n`.
abbrev pub AtLeast : Option SessionStats → ℕ → Type 0
AtLeast none n = ⊥
AtLeast (some p) n = n ≤ p.last_changed

later-AtLeast : (o : Option SessionStats) (v : SessionStats) → AtLeast (later o v) v.last_changed
later-AtLeast none v = omega arith
later-AtLeast (some p) v = elim (Bool-cases (ltb p.last_changed v.last_changed)) [
  | inl y ↦ rw y (omega arith)
  | inr n ↦ rw n (ground (arith, n))
]

later-AtLeast_kept :
    (o : Option SessionStats) (v : SessionStats) (n : ℕ) → AtLeast o n → AtLeast (later o v) n
later-AtLeast_kept none v n h = absurd h
later-AtLeast_kept (some p) v n h = elim (Bool-cases (ltb p.last_changed v.last_changed)) [
  | inl y ↦ rw y (omega (arith, h, ltb→lt p.last_changed v.last_changed y))
  | inr m ↦ rw m h
]

latest-AtLeast_kept :
    (id : Str) (vs : List SessionStats) (o : Option SessionStats) (n : ℕ)
    → AtLeast o n
    → AtLeast (latest id vs o) n
latest-AtLeast_kept id [] o n h = h
latest-AtLeast_kept id (v ∷ vs) o n h = elim (Bool-cases (str_eq v.peer_identity id)) [
  | inl y ↦ rw y (latest-AtLeast_kept id vs (later o v) n (later-AtLeast_kept o v n h))
  | inr m ↦ rw m (latest-AtLeast_kept id vs o n h)
]

-- A session of peer `id` is listed, or one that changed later.
abbrev pub IsListed : Str → Option SessionStats → SessionStats → Type 0
IsListed id o v = str_eq v.peer_identity id ≡ true → AtLeast o v.last_changed

latest-IsListed :
    (id : Str) (vs : List SessionStats) (o : Option SessionStats)
    → All (IsListed id (latest id vs o)) vs
latest-IsListed id [] o = tt
latest-IsListed id (v ∷ vs) o = (
  (λ y. rw y (latest-AtLeast_kept id vs (later o v) v.last_changed (later-AtLeast o v))),
  latest-IsListed id vs (if str_eq v.peer_identity id then later o v else o),
)

-- Stats counts the tunnels with an open session, adds up the streams opened and accepted and the
-- bytes of the open sessions, the bytes with those of the finalized sessions (each total in its
-- width), and lists for each named peer with an open session exactly one snapshot, and for another
-- none: the first of the latest among those of the peer's open sessions, so that no later one is
-- left out.
pub server_stats-Totals_and_latest :
    (listener : Option (ℕ × ℕ)) (c : Counters) (w : World) (tunnels : List (Tunnel × LatencyRing))
    (id : Str)
    → is_empty id ≡ false
    → let s = server_stats listener c w tunnels in
      let vs = map (tunnel_stats w) tunnels in
      Totals vs w s
      × (entries id s.sessions ≡ at_most_one (latest id vs none))
      × All (IsListed id (latest id vs none)) vs
server_stats-Totals_and_latest listener c w tunnels id h = (
  server_stats-Totals listener c w tunnels,
  server_stats-entries listener c w tunnels id h,
  latest-IsListed id (map (tunnel_stats w) tunnels) none,
)
