-- ===== src/Eventlog/Reads.antt =====
-- `Format` against the list of recent entries.
use tlswrapper.Base.{
  ℕ, zero, suc, ◌≡◌, ◌≤◌, ◌<◌, refl, ap, ◌∙◌, sym, inl, inr, Str, ltb, Bool, true, none, some, List,
  [], ◌∷◌, ◌++◌, map, length, get_elem?, take, take-length_le, length-append, arith, Bool-cases,
  ltb→lt,
}
use mathlib.Core.List.{
  reverse, reverse_aux, reverse-reverse, reverse_aux-eq, append_assoc, reverse_aux-reverse_aux-nil,
}
use tlswrapper.Eventlog.{
  Entry, Recent, new_recent, previous, line, entries_from, write_lines, format,
}
use tlswrapper.Eventlog.Recents.{Recents, Holds, view, Shows, get-reverse_aux, length-reverse_aux}
use tlswrapper.Eventlog.Adds.{add_all, remember_all, add_all-Shows, new_recent-Shows}

-- The loop, while it has not gone round: the entries before the position, the nearest first.
entries_from-newer :
    (k : ℕ) (a c : List Entry)
    → k ≤ length a
    → entries_from k (length a) (reverse_aux a c) ≡ take k a
unfolding entries_from
entries_from-newer zero a c h = refl
entries_from-newer (suc k) [] c h = ground (arith, h)
entries_from-newer (suc k) (e ∷ a) c h =
    let got = get-reverse_aux a (e ∷ c) (length a) 0 (omega arith) in
    rw (got, entries_from) (ap (◌∷◌ e) (entries_from-newer k a (e ∷ c) (omega (arith, h))))

previous-start : (n : ℕ) → 0 < n → previous 0 n ≡ previous n n
previous-start zero h = ground (arith, h)
previous-start (suc n) h = omega arith

entries_from-previous :
    (k pos pos' : ℕ) (xs : List Entry)
    → previous pos (length xs) ≡ previous pos' (length xs)
    → entries_from (suc k) pos xs ≡ entries_from (suc k) pos' xs
unfolding entries_from
entries_from-previous k pos pos' xs h =
    ap (λ q. elim (get_elem? xs q) [ none ↦ [] | some e ↦ e ∷ entries_from k q xs ]) h

-- From the start of the slice, it goes on at its end.
entries_from-start :
    (k : ℕ) (xs : List Entry) → k ≤ length xs → entries_from k 0 xs ≡ take k (reverse xs)
unfolding entries_from
entries_from-start zero xs h = refl
entries_from-start (suc k) xs h =
    let r = reverse xs in
    let n : length xs ≡ length r = omega (arith, length-reverse_aux xs []) in
    let whole : xs ≡ reverse_aux r [] = sym (reverse-reverse xs) in
    entries_from-previous k 0 (length r) xs
      (previous-start (length xs) (omega (arith, h)) ∙ ap (λ m. previous m (length xs)) n)
    ∙ ap (entries_from (suc k) (length r)) whole
    ∙ entries_from-newer (suc k) r [] (omega (arith, n, h))

-- From behind `a`: `a`, and then the slice from its end.
entries_from-all :
    (k : ℕ) (a c xs : List Entry)
    → xs ≡ reverse_aux a c
    → k ≤ length xs
    → entries_from k (length a) xs ≡ take k (a ++ reverse xs)
unfolding entries_from
entries_from-all k [] c xs e h = entries_from-start k xs h
entries_from-all zero (x ∷ a) c xs e h = refl
entries_from-all (suc k) (x ∷ a) c xs e h =
    let got : get_elem? xs (length a) ≡ some x =
      ap (λ es. get_elem? es (length a)) e ∙ get-reverse_aux a (x ∷ c) (length a) 0 (omega arith) in
    rw (got, entries_from) (ap (◌∷◌ x) (entries_from-all k a (x ∷ c) xs e (omega (arith, h))))

take-append_le : (k : ℕ) (xs ys : List Entry) → k ≤ length xs → take k (xs ++ ys) ≡ take k xs
take-append_le zero xs ys h = refl
take-append_le (suc k) [] ys h = ground (arith, h)
take-append_le (suc k) (x ∷ xs) ys h = ap (◌∷◌ x) (take-append_le k xs ys (omega (arith, h)))

-- The slice read back is what the log shows, and the newer entries once more.
reverse-elements : (a c : List Entry) → a ++ reverse (reverse_aux a c) ≡ view a c ++ a
reverse-elements a c =
    ap (λ r. a ++ r) (reverse_aux-reverse_aux-nil a c ∙ reverse_aux-eq c a)
    ∙ sym (append_assoc a (reverse c) a)

entries_from-view :
    (p : Recent) (a c : List Entry) (k : ℕ)
    → Holds p a c
    → k ≤ length p.elements
    → entries_from k p.lastpos p.elements ≡ take k (view a c)
entries_from-view p a c k h b =
    ap (λ n. entries_from k n p.elements) h.lastpos
    ∙ entries_from-all k a c p.elements h.elements b
    ∙ ap (λ es. take k (a ++ reverse es)) h.elements
    ∙ ap (take k) (reverse-elements a c)
    ∙ take-append_le k (view a c) a (
        omega (
          arith,
          b,
          ap length h.elements,
          length-reverse_aux a c,
          length-append a (reverse c),
          length-reverse_aux c [],
        ))

write_lines_all :
    (written : ℕ → Bool) (k : ℕ) (es : List Entry)
    → ((i : ℕ) → written i ≡ true)
    → write_lines written k es ≡ (map line es, true)
unfolding write_lines
write_lines_all written k [] h = refl
write_lines_all written k (e ∷ es) h = rw (h k, write_lines_all written (suc k) es h) refl

-- `Format` prints what the log shows, up to `n` lines.
format-Shows :
    (written : ℕ → Bool) (n : ℕ) (p : Recent) (r : Recents)
    → ((i : ℕ) → written i ≡ true)
    → Shows p r
    → format written n p ≡ (map line (take n r), true)
unfolding format
format-Shows written n p r h v =
    let size : length r ≡ length p.elements = omega (
      arith,
      ap length v.seen,
      ap length v.holds.elements,
      length-reverse_aux v.newer v.older,
      length-append v.newer (reverse v.older),
      length-reverse_aux v.older [],
    ) in
    let read : (k : ℕ) → k ≤ length p.elements → entries_from k p.lastpos p.elements ≡ take k r =
      λ k b. entries_from-view p v.newer v.older k v.holds b ∙ ap (take k) v.seen in
    let shown = λ (es : List Entry). write_lines_all written 0 es h in
    elim (Bool-cases (ltb (length p.elements) n)) [
      | inl lt ↦
          let short : length r ≤ n = omega (arith, size, ltb→lt (length p.elements) n lt) in
          rw lt (
            shown (entries_from (length p.elements) p.lastpos p.elements)
            ∙ ap (λ es. (map line es, true))
                (read (length p.elements) (omega arith)
                  ∙ take-length_le (length p.elements) r (omega (arith, size))
                  ∙ sym (take-length_le n r short)))
      | inr ge ↦
          let fits : n ≤ length p.elements = ground (arith, ge) in
          rw ge (
            shown (entries_from n p.lastpos p.elements)
            ∙ ap (λ es. (map line es, true)) (read n fits))
    ]

-- After any calls of `Add` on a new log with room for `cap` entries, `Format` with a writer that
-- takes every line prints the latest `n` entries of the log's abstract list, the newest first, and
-- returns nil. The abstract list merges a message that is repeated and keeps `cap` entries.
pub format-add_all :
    (written : ℕ → Bool) (n cap : ℕ) (ms : List (ℕ × Str))
    → 0 < cap
    → ((i : ℕ) → written i ≡ true)
    → format written n (add_all ms (new_recent cap))
      ≡ (map line (take n (remember_all cap ms [])), true)
unfolding new_recent
format-add_all written n cap ms c h =
    format-Shows written n _ _ h (add_all-Shows ms (new_recent cap) [] (new_recent-Shows cap c))
