-- ===== src/H2mux/Stream/Reads.antt =====
-- `Read` refines the bytes of the messages, in their order.
use tlswrapper.Base.{
  ℕ, ◌≤◌, ◌<◌, ◌≡◌, refl, sym, ap, ◌∙◌, if◌then◌else◌, Bool, true, false, Option, none, some, List,
  [], ◌∷◌, ◌++◌, length, concat, arith,
}
use mathlib.Core.Option.{some-injective}
use mathlib.Core.List.{append_assoc}
use tlswrapper.H2mux.Stream.{
  Stream, Receive, arrives, fails, timer_fires, ReadResult, got, read_err, blocks, abort, keep_rest,
  has_passed, is_set, take_buf, first_or, read_aborted, read_loop, read_all,
}

abbrev pub or_nil : Option (List ℕ) → List ℕ
or_nil none = []
or_nil (some b) = b

-- What `mem.ReadUnsafe` promises: it copies a front of the buffer that fits, at least a byte where
-- there is room for one, and returns what is left.
pub record IsReader (read_unsafe : ℕ → List ℕ → List ℕ × Option (List ℕ)) : Type 0 where
  pub splits : (n : ℕ) (b : List ℕ) → (read_unsafe n b).0 ++ or_nil (read_unsafe n b).1 ≡ b
  pub fits : (n : ℕ) (b : List ℕ) → length (read_unsafe n b).0 ≤ n
  pub moves : (n x : ℕ) (xs : List ℕ) → 0 < n → 0 < length (read_unsafe n (x ∷ xs)).0

-- The bytes of the messages that are still to come.
abbrev pub arriving : List (ℕ × Receive) → List ℕ
arriving [] = []
arriving ((now, arrives bufs) ∷ inbox) = concat bufs ++ arriving inbox
arriving ((now, fails e) ∷ inbox) = arriving inbox
arriving ((now, timer_fires) ∷ inbox) = arriving inbox

abbrev pub bytes_of : ReadResult → List ℕ
bytes_of (got d) = d
bytes_of (read_err e) = []
bytes_of blocks = []

abbrev pub all_bytes : List ReadResult → List ℕ
all_bytes [] = []
all_bytes (r ∷ rs) = bytes_of r ++ all_bytes rs

-- The bytes that are in the buffers and those to come.
abbrev pub content : List (ℕ × Receive) → Stream → List ℕ
content inbox s = concat s.read_bufs ++ arriving inbox

concat-keep_rest :
    (r : Option (List ℕ)) (bufs : List (List ℕ))
    → concat (keep_rest r bufs) ≡ or_nil r ++ concat bufs
concat-keep_rest none bufs = refl
concat-keep_rest (some b) bufs = refl

-- What one reading of the buffers takes out.
pub record Took (n : ℕ) (bufs rest : List (List ℕ)) (d : List ℕ) : Type 0 where
  pub order : d ++ concat rest ≡ concat bufs
  pub room : length d ≤ n
  pub some_bytes : 0 < n → 0 < length d

-- Bytes that fit, at least one where there is room; or nothing, and the buffers are used up.
abbrev pub Yields : ℕ → ReadResult → List (List ℕ) → Type 0
Yields n (got d) bufs = (length d ≤ n) × (0 < n → 0 < length d)
Yields n (read_err e) bufs = bufs ≡ []
Yields n blocks bufs = bufs ≡ []

abbrev pub Fits : ℕ → ReadResult → Type 0
Fits n (got d) = (length d ≤ n) × (0 < n → 0 < length d)
Fits n (read_err e) = Unit
Fits n blocks = Unit

abbrev pub AllFit : List ℕ → List ReadResult → Type 0
AllFit [] rs = Unit
AllFit (n ∷ ns) [] = Unit
AllFit (n ∷ ns) (r ∷ rs) = Fits n r × AllFit ns rs

Yields-Fits : (n : ℕ) (r : ReadResult) (bufs : List (List ℕ)) → Yields n r bufs → Fits n r
Yields-Fits n (got d) bufs y = y
Yields-Fits n (read_err e) bufs y = tt
Yields-Fits n blocks bufs y = tt

-- A read takes the front of the content.
abbrev pub WasRead :
    ℕ → List (ℕ × Receive) → Stream → ReadResult × List (ℕ × Receive) × Stream → Type 0
WasRead n inbox s (r, inbox', s') =
    (bytes_of r ++ content inbox' s' ≡ content inbox s) × Yields n r s'.read_bufs

WasRead-if :
    (n : ℕ) (inbox : List (ℕ × Receive)) (s : Stream) (b : Bool)
    (x y : ReadResult × List (ℕ × Receive) × Stream)
    → WasRead n inbox s x
    → WasRead n inbox s y
    → WasRead n inbox s (if b then x else y)
WasRead-if n inbox s true x y hx hy = hx
WasRead-if n inbox s false x y hx hy = hy

abort-read_bufs : (s : Stream) → (abort s).read_bufs ≡ s.read_bufs
unfolding abort
abort-read_bufs s = ground arith

-- `inbox'` is what is left of the inbox, with the same bytes.
aborted-WasRead :
    (n : ℕ) (inbox inbox' : List (ℕ × Receive)) (s : Stream)
    → concat s.read_bufs ≡ []
    → arriving inbox' ≡ arriving inbox
    → WasRead n inbox s (read_aborted inbox' s)
unfolding read_aborted
aborted-WasRead n inbox inbox' s e same =
    let a = abort-read_bufs (record s { read_bufs = [] }) in (rw (a, e) same, a)

module _ (read_unsafe : ℕ → List ℕ → List ℕ × Option (List ℕ)) (ok : IsReader read_unsafe) where
  take_buf-none :
      (n : ℕ) (bufs : List (List ℕ)) → take_buf read_unsafe n bufs ≡ none → concat bufs ≡ []
  unfolding take_buf
  take_buf-none n [] h = refl
  take_buf-none n ([] ∷ bufs) h = take_buf-none n bufs h
  take_buf-none n ((x ∷ xs) ∷ bufs) h = cc

  take_buf-Took :
      (n : ℕ) (bufs rest : List (List ℕ)) (d : List ℕ)
      → take_buf read_unsafe n bufs ≡ some (d, rest)
      → Took n bufs rest d
  unfolding take_buf
  take_buf-Took n [] rest d h = cc
  take_buf-Took n ([] ∷ bufs) rest d h =
      let t = take_buf-Took n bufs rest d h in
      record { order = t.order; room = t.room; some_bytes = t.some_bytes }
  take_buf-Took n ((x ∷ xs) ∷ bufs) rest d h =
      let r = read_unsafe n (x ∷ xs) in
      let e : (r.0, keep_rest r.1 bufs) ≡ (d, rest) = some-injective _ _ h in
      let first : d ≡ r.0 = sym (ap (λ p. p.0) e) in
      let tail : rest ≡ keep_rest r.1 bufs = sym (ap (λ p. p.1) e) in
      record {
        order =
            rw (first, tail, concat-keep_rest r.1 bufs)
              (sym (append_assoc r.0 (or_nil r.1) (concat bufs))
                ∙ ap (λ b. b ++ concat bufs) (ok.splits n (x ∷ xs)));
        room = rw first (ok.fits n (x ∷ xs));
        some_bytes = λ p. rw first (ok.moves n x xs p);
      }

  -- Where the buffers are not all empty they are read; else the rest of the loop decides.
  first_or-WasRead :
      (n : ℕ) (inbox : List (ℕ × Receive)) (s : Stream) (o : Option (List ℕ × List (List ℕ)))
      (other : ReadResult × List (ℕ × Receive) × Stream)
      → take_buf read_unsafe n s.read_bufs ≡ o
      → (concat s.read_bufs ≡ [] → WasRead n inbox s other)
      → WasRead n inbox s (first_or o inbox s other)
  first_or-WasRead n inbox s none other e h = h (take_buf-none n s.read_bufs e)
  first_or-WasRead n inbox s (some (d, rest)) other e h =
      let t = take_buf-Took n s.read_bufs rest d e in
      (
        sym (append_assoc d (concat rest) (arriving inbox)) ∙ ap (λ b. b ++ arriving inbox) t.order,
        (t.room, t.some_bytes),
      )

  read_loop-WasRead :
      (n : ℕ) (inbox : List (ℕ × Receive)) (s : Stream)
      → WasRead n inbox s (read_loop read_unsafe n inbox s)
  unfolding read_loop
  read_loop-WasRead n [] s = first_or-WasRead n [] s _ _ refl (λ e. (rw e refl, refl))
  read_loop-WasRead n ((now, arrives bufs) ∷ inbox) s =
      let i : List (ℕ × Receive) = (now, arrives bufs) ∷ inbox in
      first_or-WasRead n i s _ _ refl (λ e.
        WasRead-if n i s (has_passed s.read_deadline now) _ _ (aborted-WasRead n i i s e refl)
          (let (o, y) = read_loop-WasRead n inbox (record s { read_bufs = bufs }) in (rw e o, y)))
  read_loop-WasRead n ((now, fails x) ∷ inbox) s =
      let i : List (ℕ × Receive) = (now, fails x) ∷ inbox in
      first_or-WasRead n i s _ _ refl (λ e.
        WasRead-if n i s (has_passed s.read_deadline now) _ _ (aborted-WasRead n i i s e refl)
          (rw e refl, refl))
  read_loop-WasRead n ((now, timer_fires) ∷ inbox) s =
      let i : List (ℕ × Receive) = (now, timer_fires) ∷ inbox in
      first_or-WasRead n i s _ _ refl (λ e.
        WasRead-if n i s (is_set s.read_deadline) _ _ (aborted-WasRead n i inbox s e refl)
          (rw e refl, refl))

  read_all-WereRead :
      (ns : List ℕ) (inbox : List (ℕ × Receive)) (s : Stream)
      → let (rs, inbox', s') = read_all read_unsafe ns inbox s in
        (all_bytes rs ++ content inbox' s' ≡ content inbox s) × AllFit ns rs
  unfolding read_all
  read_all-WereRead [] inbox s = (refl, tt)
  read_all-WereRead (n ∷ ns) inbox s =
      let (r, inbox', s') = read_loop read_unsafe n inbox s in
      let (rs, inbox'', s'') = read_all read_unsafe ns inbox' s' in
      let (order, fit) = read_all-WereRead ns inbox' s' in
      let (here, yields) = read_loop-WasRead n inbox s in
      (
        append_assoc (bytes_of r) (all_bytes rs) (content inbox'' s'')
            ∙ ap (◌++◌ (bytes_of r)) order
            ∙ here,
        (Yields-Fits n r s'.read_bufs yields, fit),
      )

-- Reads of any sizes, over any messages, errors and times, return the bytes of the messages in their
-- order: what they return is, with what is left in the buffers and to come, what there was. Each
-- returns no more than there is room for, and one without an error returns a byte at least if there
-- is room. `mem.ReadUnsafe` is assumed to copy a front that fits and to return what is left.
pub reads_in_order :
    (read_unsafe : ℕ → List ℕ → List ℕ × Option (List ℕ))
    → IsReader read_unsafe
    → (ns : List ℕ) (inbox : List (ℕ × Receive)) (s : Stream)
    → let (rs, inbox', s') = read_all read_unsafe ns inbox s in
      (all_bytes rs ++ content inbox' s' ≡ content inbox s) × AllFit ns rs
reads_in_order read_unsafe ok ns inbox s = read_all-WereRead read_unsafe ok ns inbox s
