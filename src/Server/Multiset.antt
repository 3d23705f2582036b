-- ===== src/Server/Multiset.antt =====
-- The tunnels after `loadTunnels`, as a multiset of addresses.
use tlswrapper.Base.{
  ℕ, suc, ◌+◌, ◌≤◌, ◌≡◌, refl, ap, ◌∙◌, inl, inr, Str, str_eq, str_eq_iff, ltb, if◌then◌else◌, true,
  List, [], ◌∷◌, ◌++◌, append-nil, arith, Bool-cases,
}
use tlswrapper.Tunnel.{Tunnel, World, new_tunnel, stop}
use tlswrapper.Config.{File}
use tlswrapper.Server.{Server}
use tlswrapper.Server.Load.{
  Answers, one_less, tally, keep_tunnels, create_tunnels, load_identity_tunnels,
}

-- The addresses that tunnels dial.
unfoldable pub addrs : List Tunnel → List Str
addrs [] = []
addrs (t ∷ ts) = t.dial_addr ∷ addrs ts

tally-append :
    (ts us : List Tunnel) (b : Str)
    → tally (addrs (ts ++ us)) b ≡ tally (addrs ts) b + tally (addrs us) b
unfolding tally addrs
tally-append [] us b = omega arith
tally-append (t ∷ ts) us b = ground (arith, tally-append ts us b)

-- An address that is equal to a wanted one is wanted as often.
wanted_at : (d : Str → ℕ) (x b : Str) → str_eq x b ≡ true → d x ≡ d b
wanted_at d x b e = ap d ((str_eq_iff x b).0 e)

one_less-at :
    (d : Str → ℕ) (x b : Str)
    → ltb 0 (d x) ≡ true
    → (if str_eq x b then suc (one_less d x b) else one_less d x b) ≡ d b
one_less-at d x b p = elim (Bool-cases (str_eq x b)) [
  | inl e ↦ ground (arith, e, wanted_at d x b e, p)
  | inr e ↦ ground (arith, e)
]

-- Of each address, the tunnels kept and the tunnels still desired make up the desired ones.
keep_tunnels-tally :
    (d : Str → ℕ) (ts : List Tunnel) (w : World) (b : Str)
    → let r = keep_tunnels d ts w in tally (addrs r.0) b + r.1 b ≡ d b
unfolding keep_tunnels tally addrs
keep_tunnels-tally d [] w b = omega arith
keep_tunnels-tally d (t ∷ ts) w b = elim (Bool-cases (ltb 0 (d t.dial_addr))) [
  | inl p ↦
      ground (
        arith,
        p,
        one_less-at d t.dial_addr b p,
        keep_tunnels-tally (one_less d t.dial_addr) ts w b,
      )
  | inr p ↦ ground (arith, p, keep_tunnels-tally d ts (stop t w).1 b)
]

-- Of each address, as many tunnels are created as desired, if it stands that often in the list.
create_tunnels-tally :
    (a : Answers) (d : Str → ℕ) (n : ℕ) (xs : List Str) (b : Str)
    → d b ≤ tally xs b
    → tally (addrs (create_tunnels a d n xs).0) b ≡ d b
unfolding create_tunnels tally addrs new_tunnel
create_tunnels-tally a d n [] b h = omega arith
create_tunnels-tally a d n (x ∷ xs) b h = elim (Bool-cases (ltb 0 (d x))) [
  | inl p ↦
      ground (arith, p, one_less-at d x b p, create_tunnels-tally a (one_less d x) (suc n) xs b)
  | inr p ↦ ground (arith, p, wanted_at d x b, create_tunnels-tally a d (suc n) xs b)
]

-- After a load, however many calls fail, the identity tunnels dial each address exactly as often as
-- the configuration lists it, whatever tunnels there were.
pub load_identity_tunnels-tally :
    (cfg : File) (a : Answers) (s : Server) (b : Str)
    → tally (addrs (load_identity_tunnels cfg a s).0.identity_tunnels) b
      ≡ tally cfg.identity.mux_connect b
unfolding load_identity_tunnels
load_identity_tunnels-tally cfg a s b =
    let wanted = cfg.identity.mux_connect in
    let kept = keep_tunnels (tally wanted) s.identity_tunnels s.world in
    let all = keep_tunnels-tally (tally wanted) s.identity_tunnels s.world b in
    let added = create_tunnels-tally a kept.1 0 wanted b (omega (arith, all)) in
    tally-append kept.0 (create_tunnels a kept.1 0 wanted).0 b ∙ omega (arith, all, added)

-- Where there are no more tunnels than desired, all are kept and none is stopped.
keep_tunnels_all :
    (d : Str → ℕ) (ts : List Tunnel) (w : World)
    → ((b : Str) → tally (addrs ts) b ≤ d b)
    → let r = keep_tunnels d ts w in (r.0 ≡ ts) × (r.2 ≡ w)
unfolding keep_tunnels tally addrs
keep_tunnels_all d [] w h = (refl, refl)
keep_tunnels_all d (t ∷ ts) w h =
    let x = t.dial_addr in
    let p : ltb 0 (d x) ≡ true = ground (arith, h x, (str_eq_iff x x).1 refl) in
    let rest : (b : Str) → tally (addrs ts) b ≤ one_less d x b = λ b. ground (arith, h b) in
    ground (arith, p, keep_tunnels_all (one_less d x) ts w rest)

create_tunnels_none :
    (a : Answers) (d : Str → ℕ) (n : ℕ) (xs : List Str)
    → ((b : Str) → d b ≡ 0)
    → create_tunnels a d n xs ≡ ([], [])
unfolding create_tunnels
create_tunnels_none a d n [] h = refl
create_tunnels_none a d n (x ∷ xs) h = ground (arith, h x, create_tunnels_none a d (suc n) xs h)

-- Where the tunnels dial the configured addresses already, in any order, a load stops none, starts
-- none, and leaves the list and the world as they are.
pub load_identity_tunnels_same :
    (cfg : File) (a : Answers) (s : Server)
    → ((b : Str) → tally (addrs s.identity_tunnels) b ≡ tally cfg.identity.mux_connect b)
    → load_identity_tunnels cfg a s ≡ (s, [])
unfolding load_identity_tunnels
load_identity_tunnels_same cfg a s h =
    let d = tally cfg.identity.mux_connect in
    let r = keep_tunnels d s.identity_tunnels s.world in
    let (kept, still) = keep_tunnels_all d s.identity_tunnels s.world (λ b. omega (arith, h b)) in
    let left : (b : Str) → r.1 b ≡ 0 = λ b. omega (
      arith,
      keep_tunnels-tally d s.identity_tunnels s.world b,
      ap (λ ts. tally (addrs ts) b) kept,
      h b,
    ) in
    let added = create_tunnels_none a r.1 0 cfg.identity.mux_connect left in
    rw (kept, still, added) (rw (append-nil s.identity_tunnels) refl)
