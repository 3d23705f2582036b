-- ===== src/Eventlog/Adds.antt =====
-- `Add`, and any number of calls of it, against the list of recent entries.
use tlswrapper.Base.{
  ℕ, suc, ◌+◌, ◌≡◌, ◌<◌, refl, ap, ap₂, ◌∙◌, sym, ◌⊎◌, inl, inr, Str, str_eq, if◌then◌else◌, Bool,
  true, false, none, some, List, [], ◌∷◌, length, get_elem?, set, take, subst, arith,
}
use mathlib.Core.List.{reverse, reverse_aux, reverse-reverse}
use tlswrapper.Eventlog.{Entry, Recent, new_recent, previous, push, add}
use tlswrapper.Eventlog.Recents.{
  Recents, remember, Holds, view, Shows, Shows-as, push-Shows, get-reverse_aux, set-reverse_aux,
  length-reverse_aux,
}

abbrev fresh : ℕ → Str → Entry
fresh timestamp message = record { tstamp = timestamp; message = message; count = 1 }

abbrev again : ℕ → Entry → Entry
again timestamp e = record { tstamp = timestamp; message = e.message; count = e.count + 1 }

-- `Add` where the newest entry is known: `e`, behind `a`.
add_at :
    (timestamp : ℕ) (message : Str) (p : Recent) (a : List Entry) (e : Entry) (c : List Entry)
    → p.elements ≡ reverse_aux a (e ∷ c)
    → previous p.lastpos (length p.elements) ≡ length a
    → add timestamp message p ≡ (
        if str_eq e.message message
        then record p { elements = reverse_aux a (again timestamp e ∷ c) }
        else push (fresh timestamp message) p)
unfolding add
add_at timestamp message p a e c h k =
    let pos = previous p.lastpos (length p.elements) in
    let got : get_elem? p.elements pos ≡ some e =
      ap (λ es. get_elem? es pos) h ∙ get-reverse_aux a (e ∷ c) pos 0 (omega (arith, k)) in
    let put : set p.elements pos (again timestamp e) ≡ reverse_aux a (again timestamp e ∷ c) =
      ap (λ es. set es pos (again timestamp e)) h
      ∙ set-reverse_aux a (e ∷ c) (again timestamp e) pos 0 (omega (arith, k)) in
    rw (got, add) (rw put refl)

choice-Shows :
    (b : Bool) (p q : Recent) (r s : Recents)
    → Shows p r
    → Shows q s
    → Shows (if b then p else q) (if b then r else s)
choice-Shows true p q r s v w = v
choice-Shows false p q r s v w = w

add-newer :
    (timestamp : ℕ) (message : Str) (p : Recent) (e : Entry) (a older : List Entry)
    → Holds p (e ∷ a) older
    → Shows (add timestamp message p) (remember p.cap timestamp message (view (e ∷ a) older))
unfolding remember
add-newer timestamp message p e a older h =
    let k : previous p.lastpos (length p.elements) ≡ length a =
      ap (λ n. previous n (length p.elements)) h.lastpos in
    subst (λ q. Shows q (remember p.cap timestamp message (view (e ∷ a) older)))
      (sym (add_at timestamp message p a e older h.elements k))
      (choice-Shows (str_eq e.message message) _ _ _ _
        (record {
          newer = again timestamp e ∷ a;
          older = older;
          holds = record { elements = refl; lastpos = h.lastpos; room = h.room };
          seen = refl;
        })
        (push-Shows (fresh timestamp message) p (e ∷ a) older h))

-- The newest entry is the last of the slice.
add-older :
    (timestamp : ℕ) (message : Str) (p : Recent) (e : Entry) (r older : List Entry)
    → Holds p [] older
    → reverse older ≡ e ∷ r
    → Shows (add timestamp message p) (remember p.cap timestamp message (e ∷ r))
unfolding remember
add-older timestamp message p e r older h v =
    let shape : older ≡ reverse_aux r (e ∷ []) = sym (reverse-reverse older) ∙ ap reverse v in
    let n : length older ≡ suc (length r) =
      omega (arith, ap length shape, length-reverse_aux r (e ∷ [])) in
    let k : previous p.lastpos (length p.elements) ≡ length r =
      ap₂ previous h.lastpos (ap length h.elements ∙ n) ∙ omega arith in
    let r' = reverse_aux r (again timestamp e ∷ []) in
    let room : ((r' ≡ []) × (0 < p.cap)) ⊎ ((0 + length r' ≡ p.cap) × (0 < p.cap)) = elim h.room [
      | inl (o, b) ↦ ground (arith, ap length o, n)
      | inr (t, b) ↦ inr (omega (arith, length-reverse_aux r (again timestamp e ∷ []), n, t), b)
    ] in
    subst (λ q. Shows q (remember p.cap timestamp message (e ∷ r)))
      (sym (add_at timestamp message p r e [] (h.elements ∙ shape) k))
      (choice-Shows (str_eq e.message message) _ _ _ _
        (record {
          newer = [];
          older = reverse_aux r (again timestamp e ∷ []);
          holds = record { elements = refl; lastpos = h.lastpos; room = room };
          seen = reverse-reverse (again timestamp e ∷ r);
        })
        (subst
          (λ x. Shows (push (fresh timestamp message) p) (take p.cap (fresh timestamp message ∷ x)))
          v (push-Shows (fresh timestamp message) p [] older h)))

add-empty :
    (timestamp : ℕ) (message : Str) (p : Recent)
    → Holds p [] []
    → Shows (add timestamp message p) (remember p.cap timestamp message [])
unfolding add remember
add-empty timestamp message p h =
    let got : get_elem? p.elements (previous p.lastpos (length p.elements)) ≡ none =
      ap (λ es. get_elem? es (previous p.lastpos (length p.elements))) h.elements in
    rw (got, add) (push-Shows (fresh timestamp message) p [] [] h)

add-oldest :
    (timestamp : ℕ) (message : Str) (p : Recent) (older v : List Entry)
    → Holds p [] older
    → reverse older ≡ v
    → Shows (add timestamp message p) (remember p.cap timestamp message v)
add-oldest timestamp message p older [] h v =
    let o : older ≡ [] = sym (reverse-reverse older) ∙ ap reverse v in
    add-empty timestamp message p (subst (Holds p []) o h)
add-oldest timestamp message p older (e ∷ r) h v = add-older timestamp message p e r older h v

add-Holds :
    (timestamp : ℕ) (message : Str) (p : Recent) (newer older : List Entry)
    → Holds p newer older
    → Shows (add timestamp message p) (remember p.cap timestamp message (view newer older))
add-Holds timestamp message p [] older h =
    add-oldest timestamp message p older (reverse older) h refl
add-Holds timestamp message p (e ∷ a) older h = add-newer timestamp message p e a older h

-- `Add` on a log that shows a list of entries shows the list with the message added.
pub add-Shows :
    (timestamp : ℕ) (message : Str) (p : Recent) (r : Recents)
    → Shows p r
    → Shows (add timestamp message p) (remember p.cap timestamp message r)
add-Shows timestamp message p r v =
    Shows-as (add-Holds timestamp message p v.newer v.older v.holds)
      (ap (remember p.cap timestamp message) v.seen)

cap-add : (timestamp : ℕ) (message : Str) (p : Recent) → (add timestamp message p).cap ≡ p.cap
unfolding add
cap-add timestamp message p = ground arith

-- Any number of messages, in the order of the calls.
unfoldable pub add_all : List (ℕ × Str) → Recent → Recent
add_all [] p = p
add_all ((timestamp, message) ∷ ms) p = add_all ms (add timestamp message p)

unfoldable pub remember_all : ℕ → List (ℕ × Str) → Recents → Recents
remember_all cap [] r = r
remember_all cap ((timestamp, message) ∷ ms) r =
    remember_all cap ms (remember cap timestamp message r)

pub add_all-Shows :
    (ms : List (ℕ × Str)) (p : Recent) (r : Recents)
    → Shows p r
    → Shows (add_all ms p) (remember_all p.cap ms r)
unfolding add_all remember_all
add_all-Shows [] p r v = v
add_all-Shows ((timestamp, message) ∷ ms) p r v =
    let q = add timestamp message p in
    subst (λ c. Shows (add_all ms q) (remember_all c ms (remember p.cap timestamp message r)))
      (cap-add timestamp message p) (add_all-Shows ms q _ (add-Shows timestamp message p r v))

pub new_recent-Shows : (cap : ℕ) → 0 < cap → Shows (new_recent cap) []
unfolding new_recent
new_recent-Shows cap h = record {
  newer = [];
  older = [];
  holds = record { elements = refl; lastpos = refl; room = inl (refl, h) };
  seen = refl;
}
