-- ===== src/Server/Lookup.antt =====
-- What `findSession` answers.
use tlswrapper.Base.{
  ℕ, suc, ◌≡◌, refl, ap, ◌∙◌, ◌⊎◌, inl, inr, Str, is_empty, str_eq, str_eq_iff, if◌then◌else◌, Bool,
  true, false, Option, none, some, List, [], ◌∷◌, All, Bool-cases, get_elem?,
}
use tlswrapper.Tunnel.{Tunnel, World, get_session}
use tlswrapper.Server.{Server, has_peer, find_from, find_session, first_with}

-- The tunnel's open session is with the peer, or it is not.
abbrev pub Reaches : Str → World → Tunnel → Type 0
Reaches peer w t = has_peer peer (get_session t w) w ≡ true

abbrev pub Misses : Str → World → Tunnel → Type 0
Misses peer w t = has_peer peer (get_session t w) w ≡ false

abbrev pub In : Tunnel → List Tunnel → Type 0
In t ts = (i : ℕ) × (get_elem? ts i ≡ some t)

-- An open session with the peer.
abbrev pub ByPeer : Str → List Tunnel → World → Option Tunnel → Type 0
ByPeer peer ts w o = (t : Tunnel) × (o ≡ some t) × In t ts × Reaches peer w t

-- No such session, and a tunnel that reached the peer last.
abbrev pub ByLast : Str → List Tunnel → World → Option Tunnel → Type 0
ByLast peer ts w o =
    (t : Tunnel) × (o ≡ some t) × In t ts × (t.last_identity ≡ peer) × All (Misses peer w) ts

-- Neither.
abbrev pub NoTunnel : Str → List Tunnel → World → Option Tunnel → Type 0
NoTunnel peer ts w o =
    (o ≡ none) × All (λ t. Misses peer w t × (str_eq t.last_identity peer ≡ false)) ts

find_from_here :
    (peer : Str) (u : Tunnel) (ts : List Tunnel) (f : Option Tunnel) (w : World)
    → Reaches peer w u
    → find_from peer (u ∷ ts) f w ≡ some u
unfolding find_from
find_from_here peer u ts f w h = rw h refl

find_from_there :
    (peer : Str) (u : Tunnel) (ts : List Tunnel) (f : Option Tunnel) (w : World)
    → Misses peer w u
    → find_from peer (u ∷ ts) f w ≡ find_from peer ts (first_with peer u f) w
unfolding find_from
find_from_there peer u ts f w h = rw h refl

here-ByPeer :
    (peer : Str) (u : Tunnel) (ts : List Tunnel) (f : Option Tunnel) (w : World)
    → Reaches peer w u
    → ByPeer peer (u ∷ ts) w (find_from peer (u ∷ ts) f w)
here-ByPeer peer u ts f w h = (u, find_from_here peer u ts f w h, (0, refl), h)

there-ByPeer :
    (peer : Str) (u : Tunnel) (ts : List Tunnel) (f : Option Tunnel) (w : World)
    → Misses peer w u
    → ByPeer peer ts w (find_from peer ts (first_with peer u f) w)
    → ByPeer peer (u ∷ ts) w (find_from peer (u ∷ ts) f w)
there-ByPeer peer u ts f w h (t, e, (i, m), r) =
    (t, find_from_there peer u ts f w h ∙ e, (suc i, m), r)

find_from-some :
    (peer : Str) (ts : List Tunnel) (f : Tunnel) (w : World)
    → let o = find_from peer ts (some f) w in
      ByPeer peer ts w o ⊎ ((o ≡ some f) × All (Misses peer w) ts)
unfolding find_from
find_from-some peer [] f w = inr (refl, tt)
find_from-some peer (u ∷ ts) f w = elim (Bool-cases (has_peer peer (get_session u w) w)) [
  | inl h ↦ inl (here-ByPeer peer u ts (some f) w h)
  | inr h ↦ elim (find_from-some peer ts f w) [
    | inl p ↦ inl (there-ByPeer peer u ts (some f) w h p)
    | inr (e, m) ↦ inr (find_from_there peer u ts (some f) w h ∙ e, (h, m))
  ]
]

first_with-none :
    (peer : Str) (u : Tunnel) (b : Bool)
    → str_eq u.last_identity peer ≡ b
    → first_with peer u none ≡ (if b then some u else none)
first_with-none peer u b e = rw e refl

-- A lookup in a list of tunnels, without a fallback so far.
find_from-none :
    (peer : Str) (ts : List Tunnel) (w : World)
    → let o = find_from peer ts none w in
      ByPeer peer ts w o ⊎ ByLast peer ts w o ⊎ NoTunnel peer ts w o
unfolding find_from
find_from-none peer [] w = inr (inr (refl, tt))
find_from-none peer (u ∷ ts) w = elim (Bool-cases (has_peer peer (get_session u w) w)) [
  | inl h ↦ inl (here-ByPeer peer u ts none w h)
  | inr h ↦
      let there = find_from_there peer u ts none w h in
      elim (Bool-cases (str_eq u.last_identity peer)) [
        | inl l ↦
            let step = there ∙ ap (λ f. find_from peer ts f w) (first_with-none peer u true l) in
            elim (find_from-some peer ts u w) [
              | inl (t, e, (i, m), r) ↦ inl (t, step ∙ e, (suc i, m), r)
              | inr (e, m) ↦
                  inr (inl (u, step ∙ e, (0, refl), (str_eq_iff u.last_identity peer).0 l, (h, m)))
            ]
        | inr l ↦
            let step = there ∙ ap (λ f. find_from peer ts f w) (first_with-none peer u false l) in
            elim (find_from-none peer ts w) [
              | inl (t, e, (i, m), r) ↦ inl (t, step ∙ e, (suc i, m), r)
              | inr (inl (t, e, (i, m), n, r)) ↦ inr (inl (t, step ∙ e, (suc i, m), n, (h, r)))
              | inr (inr (e, n)) ↦ inr (inr (step ∙ e, ((h, l), n)))
            ]
      ]
]

-- `findSession` of a named peer answers with a tunnel of the list whose open session is with that
-- peer; if there is none, with one of the list that reached the peer last; and with nothing only if
-- there is neither.
pub find_session-cases :
    (peer : Str) (s : Server)
    → is_empty peer ≡ false
    → let o = find_session peer s in
      let ts = s.identity_tunnels in
      ByPeer peer ts s.world o ⊎ ByLast peer ts s.world o ⊎ NoTunnel peer ts s.world o
unfolding find_session
find_session-cases peer s h = rw h (find_from-none peer s.identity_tunnels s.world)
