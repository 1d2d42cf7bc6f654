-- ===== src/Hub/Tails.antt =====
-- The ring buffer and the channels hold consecutive events (`publishLocked` of
-- internal/core/progress.go).
use duskrun.Base.{
  ℕ, zero, suc, ◌+◌, ◌-◌, ◌≤◌, ◌≡◌, refl, ◌∙◌, ap, sym, List, [], ◌∷◌, ◌++◌, map, length, ltb,
  arith, Bool-cases, inl, inr,
}
use Prim.Native.Nat.{min}
use duskrun.Hub.{ProgressEvent, LiveRun, drop, keep_tail, publish, tail_max}

abbrev pub seqs : List ProgressEvent → List ℕ
seqs = map (λ e. e.seq)

-- `n` numbers from `a` on.
abbrev pub count_from : ℕ → ℕ → List ℕ
count_from a zero = []
count_from a (suc n) = a ∷ count_from (suc a) n

pub count_from-snoc : (a n : ℕ) → count_from a n ++ (a + n) ∷ [] ≡ count_from a (suc n)
count_from-snoc a zero = ap (λ b. b ∷ []) (omega arith)
count_from-snoc a (suc n) =
    ap (a ∷◌) (ap (λ b. count_from (suc a) n ++ b ∷ []) (omega arith) ∙ count_from-snoc (suc a) n)

pub seqs-append : (es fs : List ProgressEvent) → seqs (es ++ fs) ≡ seqs es ++ seqs fs
seqs-append [] fs = refl
seqs-append (e ∷ es) fs = ap (e.seq ∷◌) (seqs-append es fs)

length-seqs : (es : List ProgressEvent) → length (seqs es) ≡ length es
length-seqs [] = refl
length-seqs (e ∷ es) = ap suc (length-seqs es)

length-count_from : (a n : ℕ) → length (count_from a n) ≡ n
length-count_from a zero = refl
length-count_from a (suc n) = ap suc (length-count_from (suc a) n)

pub length-counted : (es : List ProgressEvent) (a n : ℕ) → seqs es ≡ count_from a n → length es ≡ n
length-counted es a n h = sym (length-seqs es) ∙ ap length h ∙ length-count_from a n

seqs-drop_one :
    (es : List ProgressEvent) (a n : ℕ)
    → seqs es ≡ count_from a (suc n)
    → seqs (drop 1 es) ≡ count_from (suc a) n
seqs-drop_one [] a n h = absurd (ground (arith, h))
seqs-drop_one (e ∷ es) a n h = cc

pub seqs-snoc :
    (es : List ProgressEvent) (e : ProgressEvent) (a n : ℕ)
    → seqs es ≡ count_from a n
    → e.seq ≡ a + n
    → seqs (es ++ e ∷ []) ≡ count_from a (suc n)
seqs-snoc es e a n h k = seqs-append es (e ∷ []) ∙ rw (h, k) (count_from-snoc a n)

-- The buffer holds the latest events in order, all of them up to 256.
abbrev pub IsTail : LiveRun → Type 0
IsTail lr = seqs lr.tail ≡ count_from (suc lr.seq - min tail_max lr.seq) (min tail_max lr.seq)

keep_tail-counts :
    (es : List ProgressEvent) (a n : ℕ)
    → seqs es ≡ count_from a n
    → n ≤ suc tail_max
    → seqs (keep_tail es) ≡ count_from (a + n - min tail_max n) (min tail_max n)
keep_tail-counts es a n h m = elim (Bool-cases (ltb tail_max n)) [
  | inr e ↦
      let len : length es ≡ n = length-counted es a n h in
      let all : min tail_max n ≡ n = ground (arith, e) in
      let start : a + n - n ≡ a = omega arith in rw (len, e, all, start) h
  | inl e ↦
      let exact : n ≡ suc tail_max = ground (arith, e, m) in
      let long : seqs es ≡ count_from a (suc tail_max) = h ∙ ap (count_from a) exact in
      let len : length es ≡ suc tail_max = length-counted es a (suc tail_max) long in
      let start : a + suc tail_max - tail_max ≡ suc a = omega arith in
      rw (len, exact, start) (seqs-drop_one es a tail_max long)
]

-- Whatever is published, the snapshot of a live run stays the latest 256 events, or all of them where
-- there are fewer, numbered without a gap up to the last one.
pub publish-IsTail : (e : ProgressEvent) (lr : LiveRun) → IsTail lr → IsTail (publish e lr)
unfolding publish
publish-IsTail e lr h =
    let n = min tail_max lr.seq in
    let a = suc lr.seq - n in
    let e' = record e { seq = suc lr.seq } in
    let longer = seqs-snoc lr.tail e' a n h (omega arith) in
    let start : a + suc n - min tail_max (suc n) ≡ suc (suc lr.seq) - min tail_max (suc lr.seq) =
      omega arith in
    let size : min tail_max (suc n) ≡ min tail_max (suc lr.seq) = omega arith in
    keep_tail-counts (lr.tail ++ e' ∷ []) a (suc n) longer (omega arith)
    ∙ ap (λ b. count_from b (min tail_max (suc n))) start
    ∙ ap (count_from _) size
