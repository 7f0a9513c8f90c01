-- ===== src/Stream/Laws.antt =====
-- A writer that hands on a list of bytes, and a reader that takes it back.
use libdatrie_rs.Common.{
  ℕ, zero, suc, ◌+◌, ◌≤◌, ◌≡◌, refl, ap, none, some, List, [], ◌∷◌, ◌++◌, arith, length, le→leb,
  length-append, take,
}
use libdatrie_rs.Common.Run.{ok, ◌>>=◌}
use libdatrie_rs.Stream.Defs.{
  Room, Sink, Fits, shrink, Writer, Reader, write, write_all, read_exact,
}
use mathlib.Core.List.{append-nil, append_assoc}

-- The sink after `bs` went into it.
abbrev pub push : Sink → List ℕ → Sink
push s bs = record { written = s.written ++ bs; room = shrink s.room (length bs) }

-- Given room for `bs`, the writer writes exactly `bs` and succeeds.
pub record Writes (w : Writer) (bs : List ℕ) : Type 0 where
  pub run : (s : Sink) → Fits (length bs) s.room → w s ≡ ok (push s bs)

-- The reader takes `bs` off the front and returns `v`.
pub record Reads {A : Type 0} (r : Reader A) (v : A) (bs : List ℕ) : Type 0 where
  pub run : (rest : List ℕ) → r (bs ++ rest) ≡ ok (v, rest)

take_more : (r : ℕ) (bs : List ℕ) → length bs ≤ r → take r bs ≡ bs
take_more zero [] h = refl
take_more zero (b ∷ bs) h = elim h [ ]
take_more (suc r) [] h = refl
take_more (suc r) (b ∷ bs) h = rw (take_more r bs (omega arith))

Fits-split : (m n : ℕ) (r : Room) → Fits (m + n) r → Fits m r × Fits n (shrink r m)
Fits-split m n none h = (tt, tt)
Fits-split m n (some r) h = omega arith

shrink-shrink : (r : Room) (m n : ℕ) → shrink (shrink r m) n ≡ shrink r (m + n)
shrink-shrink none m n = refl
shrink-shrink (some r) m n = ap some (omega arith)

pub push-push : (s : Sink) (xs ys : List ℕ) → push (push s xs) ys ≡ push s (xs ++ ys)
push-push s xs ys = rw (append_assoc s.written xs ys, shrink-shrink s.room, length-append)

write-room :
    (bs written : List ℕ) (r : Room)
    → Fits (length bs) r
    → let s : Sink = record { written = written; room = r } in write bs s ≡ ok (push s bs)
unfolding write
write-room bs written none h = refl
write-room bs written (some r) h = rw (take_more r bs h)

write_all-room :
    (bs written : List ℕ) (r : Room)
    → Fits (length bs) r
    → let s : Sink = record { written = written; room = r } in write_all bs s ≡ ok (push s bs)
unfolding write_all
write_all-room bs written none h = refl
write_all-room bs written (some r) h = rw (le→leb (length bs) r h, take_more r bs h)

pub write-Writes : (bs : List ℕ) → Writes (write bs) bs
write-Writes bs = record { run = λ s h. write-room bs s.written s.room h }

pub write_all-Writes : (bs : List ℕ) → Writes (write_all bs) bs
write_all-Writes bs = record { run = λ s h. write_all-room bs s.written s.room h }

shrink-zero : (r : Room) → shrink r 0 ≡ r
shrink-zero none = refl
shrink-zero (some r) = ap some (omega arith)

pub push-nil : (s : Sink) → push s [] ≡ s
push-nil s = rw (append-nil s.written, shrink-zero s.room)

pub skip-Writes : Writes ok []
skip-Writes = record { run = λ s h. rw (push-nil s) }

-- One writer after the other.
pub then-Writes :
    {v w : Writer} {xs ys : List ℕ} → Writes v xs → Writes w ys → Writes (λ s. v s >>= w) (xs ++ ys)
then-Writes {v} {w} {xs} {ys} p q = record {
  run = λ s h.
      let (h₁, h₂) = Fits-split (length xs) (length ys) s.room (rw (length-append xs ys) at h) in
      rw (p.run s h₁, q.run (push s xs) h₂, push-push s xs ys);
}

pub length-read_exact : (bs rest : List ℕ) → read_exact (length bs) (bs ++ rest) ≡ ok (bs, rest)
unfolding read_exact
length-read_exact [] rest = refl
length-read_exact (b ∷ bs) rest = rw (length-read_exact bs rest)

-- The writer, of `n` bytes, and the reader agree on `v`: what was written is read back as `v`.
pub record Coded {A : Type 0} (w : Writer) (n : ℕ) (r : Reader A) (v : A) : Type 0 where
  pub bytes : List ℕ
  pub writes : Writes w bytes
  pub size : length bytes ≡ n
  pub reads : Reads r v bytes

-- A value that is read after another one.
pub then-Reads :
    {A B : Type 0} {r : Reader A} {v : A} {u : B} {xs ys : List ℕ} (k : A → Reader B)
    → Reads r v xs
    → Reads (k v) u ys
    → Reads (λ bs. r bs >>= λ p. k p.0 p.1) u (xs ++ ys)
then-Reads {xs} {ys} k p q = record {
  run = λ rest. rw (append_assoc xs ys rest, p.run (ys ++ rest)) (q.run rest);
}

-- A value put together from one that is read.
pub map-Reads :
    {A B : Type 0} {r : Reader A} {v : A} {xs : List ℕ} (f : A → B)
    → Reads r v xs
    → Reads (λ bs. r bs >>= λ p. ok (f p.0, p.1)) (f v) xs
map-Reads f p = record { run = λ rest. rw (p.run rest) }
