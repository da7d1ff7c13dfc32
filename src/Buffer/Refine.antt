-- ===== src/Buffer/Refine.antt =====
-- include/ByteBuffer.h against its specification: a queue of bytes.
use annety.Prelude.{
  ℕ, ◌≤◌, ◌≡◌, refl, sym, ap, ◌∙◌, Bool, true, List, [], ◌∷◌, ◌++◌, arith, length, take,
  if◌then◌else◌, drop, drop-all, ap₂,
}
use annety.Prelude.Int.{ℤ, pos, negsuc}
use annety.Buffer.{
  move_from, move_assign, ByteBuffer, IsValid, un_limit_size, make, readable_bytes, has_read,
  has_read_all, reset, to_string, taken_as_string, read_at, append, shrink,
}
use annety.Buffer.Inv.{length-to_string, has_read-IsValid, reset-IsValid, make-IsValid}
use annety.Buffer.View.{to_string-has_read, taken_as_string_lem}
use annety.Buffer.Append.{append_lem, accepts, accepts_unlimited, shrink_lem}

-- The calls of a client.
pub data Call : Type 0 where
  appends : List ℕ → Call
  reads : ℕ → Call
  reads_all : Call
  takes : ℤ → Call
  shrinks : Call

-- What a call answers: whether the bytes were accepted, the bytes taken, or nothing.
pub data Reply : Type 0 where
  accepted : Bool → Reply
  bytes : List ℕ → Reply
  done : Reply

pub step : ByteBuffer → Call → ByteBuffer × Reply
step b (appends xs) = let (b', flag) = append b xs in (b', accepted flag)
step b (reads n) = (has_read b n, done)
step b reads_all = (has_read_all b, done)
step b (takes n) = let (out, b') = taken_as_string b n in (b', bytes out)
step b shrinks = (shrink b, done)

pub run : ByteBuffer → List Call → ByteBuffer × List Reply
run b [] = (b, [])
run b (c ∷ cs) =
    let (b', reply) = step b c in let (b'', replies) = run b' cs in (b'', reply ∷ replies)

-- The specification: the bytes that wait, and nothing else.
abbrev pub queue_step : List ℕ → Call → List ℕ × Reply
queue_step q (appends xs) = (q ++ xs, accepted true)
queue_step q (reads n) = (drop n q, done)
queue_step q reads_all = ([], done)
queue_step q (takes (pos n)) = (drop n q, bytes (take n q))
queue_step q (takes (negsuc n)) = ([], bytes q)
queue_step q shrinks = (q, done)

abbrev pub queue_run : List ℕ → List Call → List ℕ × List Reply
queue_run q [] = (q, [])
queue_run q (c ∷ cs) =
    let (q', reply) = queue_step q c in
    let (q'', replies) = queue_run q' cs in (q'', reply ∷ replies)

-- The assert of `taken_as_string`: no more is taken than there is.
abbrev pub Asks : List ℕ → Call → Type 0
Asks q (takes (pos n)) = n ≤ length q
Asks q _ = Unit {0}

abbrev pub AllAsk : List ℕ → List Call → Type 0
AllAsk q [] = Unit {0}
AllAsk q (c ∷ cs) = Asks q c × AllAsk (queue_step q c).0 cs

-- The relation between a buffer without limit and its queue.
pub record Shows (b : ByteBuffer) (q : List ℕ) : Type 0 where
  pub valid : IsValid b
  pub unlimited : b.max_size ≡ un_limit_size
  pub content : to_string b ≡ q

to_string-reset : (b : ByteBuffer) → to_string (reset b) ≡ []
unfolding to_string reset
to_string-reset b = refl

pub has_read_limit : (b : ByteBuffer) (n : ℕ) → (has_read b n).max_size ≡ b.max_size
unfolding has_read
has_read_limit b n = ground arith

module _ (b : ByteBuffer) (q : List ℕ) (s : Shows b q) where
  pub shown : length q ≡ readable_bytes b
  shown = ap length (sym s.content) ∙ length-to_string b s.valid

  pub has_read-Shows : (n : ℕ) → Shows (has_read b n) (drop n q)
  has_read-Shows n = record {
    valid = has_read-IsValid b n s.valid;
    unlimited = has_read_limit b n ∙ s.unlimited;
    content = to_string-has_read b n s.valid ∙ ap (drop n) s.content;
  }

  pub append-Shows : (xs : List ℕ) → Shows (append b xs).0 (q ++ xs) × ((append b xs).1 ≡ true)
  append-Shows xs = (
    record {
      valid = kept.0;
      unlimited = kept.3 ∙ s.unlimited;
      content = kept.2 ∙ rw always (ap (λ t. t ++ xs) s.content);
    },
    kept.1 ∙ always,
  )
    where
      kept :
          IsValid (append b xs).0
          × ((append b xs).1 ≡ accepts b (length xs))
          × (to_string (append b xs).0
              ≡ (if accepts b (length xs) then to_string b ++ xs else to_string b))
          × ((append b xs).0.max_size ≡ b.max_size)
      kept = append_lem b xs s.valid

      always : accepts b (length xs) ≡ true
      always = accepts_unlimited b (length xs) s.unlimited

  pub reset-Shows : Shows (reset b) []
  reset-Shows = record {
    valid = reset-IsValid b;
    unlimited = unfold reset in s.unlimited;
    content = to_string-reset b;
  }

  pub shrink-Shows : Shows (shrink b) q
  shrink-Shows =
      let kept = shrink_lem b s.valid in
      record { valid = kept.0; unlimited = kept.3 ∙ s.unlimited; content = kept.1 ∙ s.content }

-- Moving a buffer without limit hands its bytes over: the target shows exactly them, whatever it
-- showed before, and the source is left valid and without bytes.
pub move_assign-Shows :
    (b rhs : ByteBuffer) (p q : List ℕ)
    → Shows b p
    → Shows rhs q
    → Shows (move_assign b rhs).0 q × Shows (move_assign b rhs).1 []
unfolding move_assign
move_assign-Shows b rhs p q s r = (r, reset-Shows b p s)

pub move_from-Shows :
    (rhs : ByteBuffer) (q : List ℕ)
    → Shows rhs q
    → Shows (move_from rhs).0 q × (to_string (move_from rhs).1 ≡ [])
unfolding move_from
move_from-Shows rhs q s = (s, to_string-reset (record rhs { buffer = [] }))

step-Shows :
    (b : ByteBuffer) (q : List ℕ) (c : Call)
    → Shows b q
    → Asks q c
    → Shows (step b c).0 (queue_step q c).0 × ((step b c).1 ≡ (queue_step q c).1)
unfolding step
step-Shows b q (appends xs) s h = ((append-Shows b q s xs).0, ap accepted (append-Shows b q s xs).1)
step-Shows b q (reads n) s h = (has_read-Shows b q s n, refl)
step-Shows b q reads_all s h = (unfold has_read_all in reset-Shows b q s, refl)
step-Shows b q (takes (pos n)) s h = (
  unfold taken_as_string in has_read-Shows b q s n,
  ap bytes
      ((taken_as_string_lem b n s.valid (omega (arith, shown b q s))).0 ∙ ap (take n) s.content),
)
step-Shows b q (takes (negsuc n)) s h = (
  unfold taken_as_string in
      rw (drop-all (readable_bytes b) q (omega (arith, shown b q s))) at
        (has_read-Shows b q s (readable_bytes b)),
  unfold taken_as_string to_string in ap bytes s.content,
)
step-Shows b q shrinks s h = (shrink-Shows b q s, refl)

-- A valid buffer without limit that shows the bytes `q` answers any sequence of calls as the plain
-- queue `q` does (every append is accepted), and shows the queue's bytes afterwards; no more bytes
-- are taken by a call than are there.
pub run-refines :
    (b : ByteBuffer) (q : List ℕ) (cs : List Call)
    → Shows b q
    → AllAsk q cs
    → Shows (run b cs).0 (queue_run q cs).0 × ((run b cs).1 ≡ (queue_run q cs).1)
unfolding run
run-refines b q [] s h = (s, refl)
run-refines b q (c ∷ cs) s h =
    let (next, out) = step-Shows b q c s h.0 in
    let (last, outs) = run-refines (step b c).0 (queue_step q c).0 cs next h.1 in
    (last, ap₂ ◌∷◌ out outs)

-- A new buffer without limit is an empty queue.
pub make-Shows : (init : ℕ) → Shows (make un_limit_size init) []
make-Shows init = record {
  valid = make-IsValid un_limit_size init;
  unlimited = unfold make in refl;
  content = unfold to_string make readable_bytes read_at in refl;
}
