-- ===== src/Encoder/Fields.antt =====
-- What a run of writes adds to a message whose writes are all aligned, and how two runs join.
use webx_engine.Common.{
  ℕ, ◌+◌, ◌%◌, ◌≤◌, ◌≡◌, refl, ◌∙◌, List, [], ◌∷◌, ◌++◌, length, ok, ◌>>=◌, arith, length-append,
  append_assoc, append-nil, ltb, lt→ltb,
}
use webx_engine.Buffer.{Buffer, write, append}
use webx_engine.Buffer.Bytes.{le_bytes}
use webx_engine.Buffer.Writing.{Filled, put, put-Filled, write_lem, append_lem}
use webx_engine.Encoder.{Encoded, write_if}

-- After an aligned content, `f` appends exactly `bytes` if they fit.
abbrev pub Appends : (Buffer → Encoded) → List ℕ → Type 0
Appends f bytes =
    (b : Buffer) (xs : List ℕ)
    → Filled b xs
    → length xs % 4 ≡ 0
    → length xs + length bytes ≤ b.size
    → (b' : Buffer) × (f b ≡ ok b') × Filled b' (xs ++ bytes) × (b'.size ≡ b.size)

-- The same for bytes that may start anywhere.
abbrev pub AppendsAnywhere : (Buffer → Encoded) → List ℕ → Type 0
AppendsAnywhere f bytes =
    (b : Buffer) (xs : List ℕ)
    → Filled b xs
    → length xs + length bytes ≤ b.size
    → (b' : Buffer) × (f b ≡ ok b') × Filled b' (xs ++ bytes) × (b'.size ≡ b.size)

pub append_anywhere : (bytes : List ℕ) → AppendsAnywhere (λ b. append bytes b) bytes
append_anywhere bytes b xs f h =
    (put b bytes, append_lem bytes xs b f h, put-Filled b xs _ f h, refl)

-- `if (size) append(bytes)` appends the bytes whether or not there are any.
pub write_if_anywhere :
    (bytes : List ℕ) → AppendsAnywhere (write_if (ltb 0 (length bytes)) bytes) bytes
write_if_anywhere [] b xs f h = (b, refl, rw append-nil f, refl)
write_if_anywhere (x ∷ bytes) b xs f h =
    rw (lt→ltb 0 (length (x ∷ bytes)) (omega arith)) (append_anywhere (x ∷ bytes) b xs f h)

pub then_anywhere :
    (f : Buffer → Encoded) (g : Buffer → Encoded) (ys zs : List ℕ)
    → AppendsAnywhere f ys
    → AppendsAnywhere g zs
    → AppendsAnywhere (λ b. f b >>= g) (ys ++ zs)
then_anywhere f g ys zs p q b xs fl h =
    let l = length-append ys zs in
    let (b₁, e₁, f₁, s₁) = p b xs fl (omega arith) in
    let l₁ = length-append xs ys in
    let (b₂, e₂, f₂, s₂) = q b₁ (xs ++ ys) f₁ (omega arith) in
    (b₂, rw e₁ e₂, rw (← append_assoc xs ys zs) f₂, s₂ ∙ s₁)

pub done-Appends : Appends (λ b. ok b) []
done-Appends b xs f a h = (b, refl, rw append-nil f, refl)

pub word-Appends : (v : ℕ) → Appends (λ b. write 4 v b) (le_bytes 4 v)
word-Appends v b xs f a h =
    (put b (le_bytes 4 v), write_lem 4 v xs b f a (omega arith), put-Filled b xs _ f h, refl)

pub bytes-Appends : (bytes : List ℕ) → Appends (λ b. append bytes b) bytes
bytes-Appends bytes b xs f a h =
    (put b bytes, append_lem bytes xs b f h, put-Filled b xs _ f h, refl)

pub then-Appends :
    (f : Buffer → Encoded) (g : Buffer → Encoded) (ys zs : List ℕ)
    → length ys % 4 ≡ 0
    → Appends f ys
    → Appends g zs
    → Appends (λ b. f b >>= g) (ys ++ zs)
then-Appends f g ys zs a p q b xs fl al h =
    let l = length-append ys zs in
    let (b₁, e₁, f₁, s₁) = p b xs fl al (omega arith) in
    let l₁ = length-append xs ys in
    let (b₂, e₂, f₂, s₂) = q b₁ (xs ++ ys) f₁ (omega arith) (omega arith) in
    (b₂, rw e₁ e₂, rw (← append_assoc xs ys zs) f₂, s₂ ∙ s₁)

-- A 32-bit value, and what follows it.
pub word_then :
    (v : ℕ) (g : Buffer → Encoded) (zs : List ℕ)
    → Appends g zs
    → Appends (λ b. write 4 v b >>= g) (le_bytes 4 v ++ zs)
word_then v g zs q = then-Appends (λ b. write 4 v b) g (le_bytes 4 v) zs (refl) (word-Appends v) q
