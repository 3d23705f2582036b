-- ===== src/Eventlog/Recents.antt =====
-- The log as a list of the latest entries, the newest first.
use tlswrapper.Base.{
  ℕ, zero, suc, ◌+◌, ◌%◌, ◌≡◌, ◌≤◌, ◌<◌, refl, ap, ◌∙◌, sym, ◌⊎◌, inl, inr, Str, str_eq,
  if◌then◌else◌, List, [], ◌∷◌, ◌++◌, append-nil, length, get_elem?, set, take, take-length_le,
  subst, arith, length-append, ℕ_discrete,
}
use mathlib.Core.List.{reverse, reverse_aux, reverse-reverse, reverse-cons, append_assoc}
use native.Mathlib.Nat.{mod-eq_of_lt, mod_self}
use tlswrapper.Eventlog.{Entry, Recent, push}

-- What the log is for: of all that was added, the latest `cap` entries, the newest first.
abbrev pub Recents : Type 0
Recents = List Entry

-- A message is counted with the newest entry, or is a new one and pushes the oldest out.
unfoldable pub remember : ℕ → ℕ → Str → Recents → Recents
remember cap timestamp message [] =
    take cap (record { tstamp = timestamp; message = message; count = 1 } ∷ [])
remember cap timestamp message (e ∷ es) =
    if str_eq e.message message
    then record { tstamp = timestamp; message = e.message; count = e.count + 1 } ∷ es
    else take cap (record { tstamp = timestamp; message = message; count = 1 } ∷ e ∷ es)

-- The entries before `lastpos` are `newer`, those from there on are `older`, the oldest first.
pub record Holds (p : Recent) (newer older : List Entry) : Type 0 where
  pub elements : p.elements ≡ reverse_aux newer older
  pub lastpos : p.lastpos ≡ length newer
  pub room :
      ((older ≡ []) × (length newer < p.cap))
      ⊎ ((length newer + length older ≡ p.cap) × (length newer < p.cap))

abbrev pub view : List Entry → List Entry → Recents
view newer older = newer ++ reverse older

pub length-reverse_aux : (a c : List Entry) → length (reverse_aux a c) ≡ length a + length c
length-reverse_aux [] c = omega arith
length-reverse_aux (x ∷ a) c = omega (arith, length-reverse_aux a (x ∷ c))

pub get-reverse_aux :
    (a c : List Entry) (n i : ℕ) → n ≡ length a + i → get_elem? (reverse_aux a c) n ≡ get_elem? c i
get-reverse_aux [] c n i e = ap (get_elem? c) (omega (arith, e))
get-reverse_aux (x ∷ a) c n i e = get-reverse_aux a (x ∷ c) n (suc i) (omega (arith, e))

pub set-reverse_aux :
    (a c : List Entry) (y : Entry) (n i : ℕ)
    → n ≡ length a + i
    → set (reverse_aux a c) n y ≡ reverse_aux a (set c i y)
set-reverse_aux [] c y n i e = ap (λ k. set c k y) (omega (arith, e))
set-reverse_aux (x ∷ a) c y n i e = set-reverse_aux a (x ∷ c) y n (suc i) (omega (arith, e))

append-reverse_aux : (a c d : List Entry) → reverse_aux a c ++ d ≡ reverse_aux a (c ++ d)
append-reverse_aux [] c d = refl
append-reverse_aux (x ∷ a) c d = append-reverse_aux a (x ∷ c) d

-- A log whose view is known.
pub record Shows (p : Recent) (r : Recents) : Type 0 where
  pub newer : List Entry
  pub older : List Entry
  pub holds : Holds p newer older
  pub seen : view newer older ≡ r

-- Where the newer entries fill the log, reading starts over.
wrap_full :
    (p : Recent) (a : List Entry) (older : List Entry)
    → p.elements ≡ reverse_aux a older
    → p.lastpos ≡ 0
    → length a + length older ≡ p.cap
    → 0 < p.cap
    → older ≡ []
    → Shows p (view a older)
wrap_full p a older e l f c o = record {
  newer = [];
  older = reverse_aux a [];
  holds = record {
    elements = e ∙ ap (reverse_aux a) o;
    lastpos = l;
    room = inr (omega (arith, length-reverse_aux a [], f, ap length o), c);
  };
  seen = reverse-reverse a ∙ sym (append-nil a) ∙ ap (view a) (sym o);
}

pub nil_of_length : (xs : List Entry) → length xs ≡ 0 → xs ≡ []
nil_of_length [] h = refl
nil_of_length (x ∷ xs) h = ground (arith, h)

-- A log after a push: `a` are the newer entries, and the position has gone on, or round.
settle :
    (p : Recent) (a older : List Entry)
    → p.elements ≡ reverse_aux a older
    → p.lastpos ≡ length a % p.cap
    → length a ≤ p.cap
    → 0 < p.cap
    → (older ≡ []) ⊎ (length a + length older ≡ p.cap)
    → Shows p (view a older)
settle p a older e l b c r = elim (ℕ_discrete (length a) p.cap) [
  | yes f ↦
      let o : older ≡ [] = elim r [
        | inl n ↦ n
        | inr t ↦ nil_of_length older (omega (arith, t, f))
      ] in
      wrap_full p a older e (l ∙ ap (λ n. n % p.cap) f ∙ mod_self p.cap)
        (omega (arith, ap length o, f)) c o
  | no nf ↦ record {
    newer = a;
    older = older;
    holds = record {
      elements = e;
      lastpos = l ∙ mod-eq_of_lt (omega (arith, b, nf));
      room = elim r [
        | inl n ↦ inl (n, omega (arith, b, nf))
        | inr t ↦ inr (t, omega (arith, b, nf))
      ];
    };
    seen = refl;
  }
]

push_room :
    (x : Entry) (p : Recent)
    → length p.elements < p.cap
    → push x p ≡ record p { elements = p.elements ++ (x ∷ []); lastpos = (p.lastpos + 1) % p.cap }
unfolding push
push_room x p h = ground (arith, h)

push_full :
    (x : Entry) (p : Recent)
    → length p.elements ≡ p.cap
    → push x p ≡ record p {
      elements = set p.elements p.lastpos x;
      lastpos = (p.lastpos + 1) % length p.elements;
    }
unfolding push
push_full x p h = ground (arith, h)

take-append_exact : (n : ℕ) (xs ys : List Entry) → length xs ≡ n → take n (xs ++ ys) ≡ xs
take-append_exact zero [] ys h = refl
take-append_exact zero (x ∷ xs) ys h = ground (arith, h)
take-append_exact (suc n) [] ys h = ground (arith, h)
take-append_exact (suc n) (x ∷ xs) ys h = ap (◌∷◌ x) (take-append_exact n xs ys (omega (arith, h)))

pub Shows-as : {p : Recent} {r s : Recents} → Shows p r → r ≡ s → Shows p s
Shows-as v e = record { newer = v.newer; older = v.older; holds = v.holds; seen = v.seen ∙ e }

-- There is room: the entry is appended.
room-Shows :
    (x : Entry) (p : Recent) (newer older : List Entry)
    → Holds p newer older
    → older ≡ []
    → length newer < p.cap
    → Shows (push x p) (take p.cap (x ∷ view newer older))
room-Shows x p newer older h o b =
    let n : length p.elements < p.cap =
      omega (arith, ap length h.elements, length-reverse_aux newer older, ap length o, b) in
    let q = record p { elements = p.elements ++ (x ∷ []); lastpos = (p.lastpos + 1) % p.cap } in
    let e : q.elements ≡ reverse_aux (x ∷ newer) [] =
      ap (λ es. es ++ (x ∷ [])) h.elements
      ∙ append-reverse_aux newer older (x ∷ [])
      ∙ ap (λ c. reverse_aux newer (c ++ (x ∷ []))) o in
    let at : p.lastpos + 1 ≡ suc (length newer) = omega (arith, h.lastpos) in
    let l : q.lastpos ≡ suc (length newer) % p.cap = ap (λ k. k % p.cap) at in
    let v = settle q (x ∷ newer) [] e l (omega (arith, b)) (omega (arith, b)) (inl refl) in
    let fits =
      take-length_le p.cap (view (x ∷ newer) []) (omega (arith, length-append newer [], b)) in
    subst (λ s. Shows s (take p.cap (x ∷ view newer older))) (sym (push_room x p n))
      (Shows-as v (sym fits ∙ ap (λ c. take p.cap (x ∷ view newer c)) (sym o)))

-- The log is full: the entry takes the place of the oldest.
full-Shows :
    (x : Entry) (p : Recent) (newer older : List Entry)
    → Holds p newer older
    → length newer + length older ≡ p.cap
    → length newer < p.cap
    → Shows (push x p) (take p.cap (x ∷ view newer older))
full-Shows x p newer [] h t b = ground (arith, t, b)
full-Shows x p newer (y ∷ c) h t b =
    let n : length p.elements ≡ p.cap =
      omega (arith, ap length h.elements, length-reverse_aux newer (y ∷ c), t) in
    let q = record p {
      elements = set p.elements p.lastpos x;
      lastpos = (p.lastpos + 1) % length p.elements;
    } in
    let e : q.elements ≡ reverse_aux (x ∷ newer) c =
      ap (λ es. set es p.lastpos x) h.elements
      ∙ set-reverse_aux newer (y ∷ c) x p.lastpos 0 (omega (arith, h.lastpos)) in
    let at : p.lastpos + 1 ≡ suc (length newer) = omega (arith, h.lastpos) in
    let l : q.lastpos ≡ suc (length newer) % p.cap =
      ap (λ k. (p.lastpos + 1) % k) n ∙ ap (λ k. k % p.cap) at in
    let v =
      settle q (x ∷ newer) c e l (omega (arith, b)) (omega (arith, b)) (inr (omega (arith, t))) in
    let shape : view (x ∷ newer) c ++ (y ∷ []) ≡ x ∷ view newer (y ∷ c) =
      ap (◌∷◌ x)
        (append_assoc newer (reverse c) (y ∷ []) ∙ ap (λ r. newer ++ r) (sym (reverse-cons y c))) in
    let exact =
      take-append_exact p.cap (view (x ∷ newer) c) (y ∷ [])
        (omega (arith, length-append newer (reverse c), length-reverse_aux c [], t)) in
    subst (λ s. Shows s (take p.cap (x ∷ view newer (y ∷ c)))) (sym (push_full x p n))
      (Shows-as v (sym exact ∙ ap (take p.cap) shape))

-- A pushed entry comes first, and what is beyond the capacity is gone.
pub push-Shows :
    (x : Entry) (p : Recent) (newer older : List Entry)
    → Holds p newer older
    → Shows (push x p) (take p.cap (x ∷ view newer older))
push-Shows x p newer older h = elim h.room [
  | inl (o, b) ↦ room-Shows x p newer older h o b
  | inr (t, b) ↦ full-Shows x p newer older h t b
]
