-- ===== src/Core/Reader/Reads.antt =====
-- Readers that read exactly what was written, whatever stands behind it.
use mathlib.Core.List.{append_assoc}
use agentc.Core.Reader.{
  SlabId, Cursor, Outcome, ok, Reader, ◌>>=◌, pure, le, number, append_pod, append_slab_id,
  read_pod, read_slab_id, read_counted, read_string, repeat, size_of_size,
}
use agentc.Prelude.{
  ℕ, zero, suc, ◌+◌, ◌%◌, ◌^◌, ◌/◌, ◌<◌, ◌≤◌, ◌≡◌, refl, ap, false, Bytes, List, [], ◌∷◌, ◌++◌,
  length, take, drop, ltb, arith, length-append,
}

abbrev pub after : ℕ → Bytes → Bytes → Cursor
after at s rest = record { at = at + length s; rest = rest }

abbrev pub Reads : {A : Type 0} → Reader A → Bytes → A → Type 0
Reads g s a =
    (at : ℕ) (rest : Bytes) → g (record { at = at; rest = s ++ rest }) ≡ ok (a, after at s rest)

pub length-le : (w n : ℕ) → length (le w n) ≡ w
unfolding le
length-le zero n = refl
length-le (suc w) n = ap suc (length-le w (n / 256))

pub number-le : (w n : ℕ) → n < 256 ^ w → number (le w n) ≡ n
unfolding le number
number-le zero n h = omega arith
number-le (suc w) n h = rw (number-le w (n / 256) (omega arith)) (omega arith)

pub take-length : (s rest : Bytes) → take (length s) (s ++ rest) ≡ s
take-length [] rest = refl
take-length (b ∷ s) rest = ap (◌∷◌ b) (take-length s rest)

pub drop-length : (s rest : Bytes) → drop (length s) (s ++ rest) ≡ rest
drop-length [] rest = refl
drop-length (b ∷ s) rest = drop-length s rest

pub take_all : (s : Bytes) → take (length s) s ≡ s
take_all [] = refl
take_all (b ∷ s) = ap (◌∷◌ b) (take_all s)

pub drop_all : (s : Bytes) → drop (length s) s ≡ []
drop_all [] = refl
drop_all (b ∷ s) = drop_all s

pub take-le : (w n : ℕ) (rest : Bytes) → take w (le w n ++ rest) ≡ le w n
unfolding le
take-le zero n rest = refl
take-le (suc w) n rest = ap (◌∷◌ (n % 256)) (take-le w (n / 256) rest)

pub drop-le : (w n : ℕ) (rest : Bytes) → drop w (le w n ++ rest) ≡ rest
unfolding le
drop-le zero n rest = refl
drop-le (suc w) n rest = drop-le w (n / 256) rest

pub ltb-false : (a b : ℕ) → b ≤ a → ltb a b ≡ false
ltb-false a b h = ground arith

-- The same place, written in two ways.
abbrev landed : {A : Type 0} → A → Bytes → ℕ → Outcome (A × Cursor)
landed a rest at = ok (a, record { at = at; rest = rest })

same_place :
    {A : Type 0} (a : A) (rest : Bytes) (m n : ℕ) → m ≡ n → landed a rest m ≡ landed a rest n
same_place a rest m n e = ap (landed a rest) e

pub Reads-pure : {A : Type 0} (a : A) → Reads (pure a) [] a
unfolding pure
Reads-pure a at rest = same_place a rest _ _ (omega arith)

-- Two readers in a row read two texts in a row.
pub Reads-bind :
    {A B : Type 0} (g : Reader A) (k : A → Reader B) (s t : Bytes) (a : A) (b : B)
    → Reads g s a
    → Reads (k a) t b
    → Reads (g >>= k) (s ++ t) b
unfolding ◌>>=◌
Reads-bind g k s t a b hg hk at rest =
    rw (append_assoc s t rest, hg at (t ++ rest), hk (at + length s) rest, length-append s t)
      (same_place b rest _ _ (omega arith))

-- The first of two readers is done, and the second goes on from where it stopped.
pub step :
    {A B : Type 0} (g : Reader A) (k : A → Reader B) (s : Bytes) (a : A) (at : ℕ) (rest : Bytes)
    → Reads g s a
    → (g >>= k) (record { at = at; rest = s ++ rest }) ≡ k a (after at s rest)
unfolding ◌>>=◌
step g k s a at rest h = rw (h at rest)

-- A reader, and a value made of what it read.
pub Reads-map :
    {A B : Type 0} (g : Reader A) (f : A → B) (s : Bytes) (a : A)
    → Reads g s a
    → Reads (g >>= λ x. pure (f x)) s (f a)
unfolding ◌>>=◌ pure
Reads-map g f s a h at rest = rw (h at rest)

pub Reads-read_pod : (w n : ℕ) → n < 256 ^ w → Reads (read_pod w) (le w n) n
unfolding read_pod
Reads-read_pod w n h at rest = rw (
  take-le w n rest,
  drop-le w n rest,
  number-le w n h,
  length-le w n,
  ltb-false (length (le w n ++ rest)) w (omega (arith, length-append (le w n) rest, length-le w n)),
)

pub Reads-read_slab_id :
    (sid : SlabId)
    → sid.index < 65536
    → sid.offset < 65536
    → Reads read_slab_id (append_slab_id sid []) sid
unfolding read_slab_id append_slab_id append_pod
Reads-read_slab_id sid h k = Reads-bind _ _ _ _ _ _ (Reads-read_pod 2 sid.index h) (
    Reads-map _ (λ second. record { index = sid.index; offset = second }) _ _
      (Reads-read_pod 2 sid.offset k))

module _ (max_size : ℕ) where
  pub Reads-read_counted :
      (s : Bytes) → length s ≤ max_size → Reads (read_counted max_size (length s)) s s
  unfolding read_counted
  Reads-read_counted s h at rest = rw (
    ltb-false (at + length (s ++ rest)) ((at + length s) % 2 ^ 64)
        (omega (arith, length-append s rest)),
    ltb-false max_size (length s) h,
    take-length s rest,
    drop-length s rest,
  )

  pub Reads-read_string :
      (s : Bytes)
      → length s ≤ max_size
      → length s < 2 ^ 64
      → Reads (read_string max_size) (le size_of_size (length s) ++ s) s
  unfolding read_string
  Reads-read_string s h k =
      Reads-bind _ _ _ _ _ _ (Reads-read_pod 8 (length s) (omega arith)) (Reads-read_counted s h)

abbrev pub concat : {A : Type 0} → (A → Bytes) → List A → Bytes
concat f [] = []
concat f (a ∷ more) = f a ++ concat f more

abbrev pub AllRead : {A : Type 0} → Reader A → (A → Bytes) → List A → Type 0
AllRead g f [] = Unit
AllRead g f (a ∷ more) = Reads g (f a) a × AllRead g f more

-- A counted sequence is read as it was written, one element after the other.
pub Reads-repeat :
    {A : Type 0} (g : Reader A) (f : A → Bytes) (values : List A)
    → AllRead g f values
    → Reads (repeat (length values) g) (concat f values) values
unfolding repeat pure
Reads-repeat g f [] h = λ at rest. same_place [] rest _ _ (omega arith)
Reads-repeat g f (a ∷ more) h =
    Reads-bind _ _ _ _ _ _ h.0 (Reads-map _ (λ l. a ∷ l) _ _ (Reads-repeat g f more h.1))
