-- ===== src/Forwarder/Tally.antt =====
-- What a pair has contributed to the counters, read off the places where its threads stand, and
-- that every action keeps the books.
use tlswrapper.Base.{ℕ, ◌+◌, ◌-◌, ◌≤◌, ◌<◌, ◌≡◌, Bool, true, false, arith}
use tlswrapper.Forwarder.Machine.{
  StartPc, checking, counting, spawning_forth, joining, refused, half_started, started, DirPc,
  waiting, copying, copied, ended, reported, first, last, cleaning, untracking, releasing,
  announcing, done_first, done_last, strayed, Pair, step_dir,
}

-- The direction has not decremented `remaining`.
unfoldable pub pending : DirPc → ℕ
pending waiting = 1
pending copying = 1
pending (copied _) = 1
pending ended = 1
pending reported = 1
pending _ = 0

-- The direction left `remaining` at 1.
unfoldable pub came_first : DirPc → ℕ
came_first first = 1
came_first done_first = 1
came_first _ = 0

-- The direction left `remaining` at 0.
unfoldable pub came_last : DirPc → ℕ
came_last last = 1
came_last cleaning = 1
came_last untracking = 1
came_last releasing = 1
came_last announcing = 1
came_last done_last = 1
came_last _ = 0

-- It has added 1 to, or taken 1 from, `numHalfOpen`.
unfoldable pub halved : DirPc → ℕ
halved done_first = 1
halved _ = 0

unfoldable pub unhalved : DirPc → ℕ
unhalved cleaning = 1
unhalved untracking = 1
unhalved releasing = 1
unhalved announcing = 1
unhalved done_last = 1
unhalved _ = 0

-- It has given the pair's place in `count` back.
unfoldable pub released : DirPc → ℕ
released announcing = 1
released done_last = 1
released _ = 0

-- It has called `OnWriteClosed`, or `OnClosed`.
unfoldable pub told : DirPc → ℕ
told waiting = 0
told copying = 0
told (copied _) = 0
told ended = 0
told _ = 1

unfoldable pub announced : DirPc → ℕ
announced done_last = 1
announced _ = 0

unfoldable pub astray : DirPc → ℕ
astray strayed = 1
astray _ = 0

-- `Start` owns the place in `count` until it has launched the first goroutine.
pub data Owner : Type 0 where
  nobody call goroutines : Owner

unfoldable pub owner : StartPc → Owner
owner checking = nobody
owner counting = nobody
owner (refused _) = nobody
owner spawning_forth = goroutines
owner joining = goroutines
owner half_started = goroutines
owner started = goroutines
owner _ = call

unfoldable pub hold : Owner → ℕ → ℕ
hold nobody n = 0
hold call n = 1
hold goroutines n = 1 - n

-- The place in `count` that the pair holds.
unfoldable pub held : Pair → ℕ
held p = hold (owner p.starter) (released p.back + released p.forth)

unfoldable pub halves : Pair → ℕ
halves p = halved p.back + halved p.forth

unfoldable pub unhalves : Pair → ℕ
unhalves p = unhalved p.back + unhalved p.forth

abbrev pub weight : Bool → ℕ → ℕ
weight true n = n
weight false n = 0

-- The books of two directions: `r` is `remaining`, `w` and `c` count the handler's calls.
pub record Books (r w c : ℕ) (h : Bool) (x y : DirPc) : Type 0 where
  pub pend : pending x + pending y ≡ r
  pub places : came_first x + came_first y + (came_last x + came_last y) + r ≡ 2
  pub one_first : came_first x + came_first y ≤ 1
  pub one_last : came_last x + came_last y ≤ 1
  pub last_after : 0 < came_last x + came_last y → r ≡ 0
  pub sane : astray x + astray y ≡ 0
  pub writes : w ≡ weight h (told x + told y)
  pub closes : c ≡ weight h (announced x + announced y)

pub Books-sym : {r w c : ℕ} {h : Bool} {x y : DirPc} → Books r w c h x y → Books r w c h y x
Books-sym {h} b = record {
  pend = omega (arith, b.pend);
  places = omega (arith, b.places);
  one_first = omega (arith, b.one_first);
  one_last = omega (arith, b.one_last);
  last_after = λ l. b.last_after (omega (arith, l));
  sane = omega (arith, b.sane);
  writes = ground (arith, b.writes);
  closes = ground (arith, b.closes);
}

abbrev pub PairBooks : Pair → DirPc → DirPc → Type 0
PairBooks p x y = Books p.remaining p.write_closed_calls p.closed_calls p.has_handler x y

pub step_dir-Books :
    (cw eof : Bool) (p : Pair) (pc other : DirPc)
    → PairBooks p pc other
    → let (e, q, pc') = step_dir cw eof p pc in PairBooks q pc' other
unfolding step_dir pending came_first came_last told announced astray
step_dir-Books cw eof p waiting other b = b
step_dir-Books cw eof p copying other b = ground arith
step_dir-Books cw eof p (copied true) other b = ground arith
step_dir-Books cw eof p (copied false) other b = ground arith
step_dir-Books cw eof p ended other b = ground arith
step_dir-Books cw eof p reported other b = ground arith
step_dir-Books cw eof p first other b = ground arith
step_dir-Books cw eof p last other b = ground arith
step_dir-Books cw eof p cleaning other b = ground arith
step_dir-Books cw eof p untracking other b = ground arith
step_dir-Books cw eof p releasing other b = ground arith
step_dir-Books cw eof p announcing other b = ground arith
step_dir-Books cw eof p done_first other b = b
step_dir-Books cw eof p done_last other b = b
step_dir-Books cw eof p strayed other b = b
