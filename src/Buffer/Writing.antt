-- ===== src/Buffer/Writing.antt =====
-- How the writes of a WebXBinaryBuffer fill it, in terms of the bytes written so far.
use webx_engine.Common.{
  ℕ, ◌+◌, ◌%◌, ◌≤◌, ◌<◌, ◌≡◌, ap, ◌∙◌, List, ◌++◌, length, take, drop, ok, arith, length-append,
  length-drop, length-take, take-append, take-add, refl, sym, subst, [], append_assoc,
}
use webx_engine.Buffer.Bytes.{le_bytes, length-le_bytes}
use webx_engine.Buffer.{Buffer, u32_mod, padding, next_write_offset, write, append, write_at, start}

-- The bytes before the write offset are `xs`, and the sizes are those of a 32-bit buffer.
pub record Filled (b : Buffer) (xs : List ℕ) : Type 0 where
  pub done : take b.write_offset b.content ≡ xs
  pub offset : b.write_offset ≡ length xs
  pub whole : length b.content ≡ b.size
  pub inside : b.write_offset ≤ b.size
  pub small : b.size < u32_mod

pub length-write_at :
    (content : List ℕ) (offset : ℕ) (bytes : List ℕ)
    → offset + length bytes ≤ length content
    → length (write_at content offset bytes) ≡ length content
unfolding write_at
length-write_at content offset bytes h = omega (
  arith,
  length-append (take offset content) (bytes ++ drop (offset + length bytes) content),
  length-append bytes (drop (offset + length bytes) content),
  length-take offset content,
  length-drop (offset + length bytes) content,
)

pub take-write_at :
    (content : List ℕ) (offset : ℕ) (bytes : List ℕ)
    → offset + length bytes ≤ length content
    → take (offset + length bytes) (write_at content offset bytes) ≡ take offset content ++ bytes
unfolding write_at
take-write_at content offset bytes h =
    rw (← append_assoc (take offset content) bytes (drop (offset + length bytes) content)) (
      take-append (take offset content ++ bytes) (drop (offset + length bytes) content) _
        (omega (arith, length-append (take offset content) bytes, length-take offset content)))

-- The buffer after `bytes` are stored at its write offset.
abbrev pub put : Buffer → List ℕ → Buffer
put b bytes = record b {
  content = write_at b.content b.write_offset bytes;
  write_offset = b.write_offset + length bytes;
}

pub put-Filled :
    (b : Buffer) (xs bytes : List ℕ)
    → Filled b xs
    → length xs + length bytes ≤ b.size
    → Filled (put b bytes) (xs ++ bytes)
put-Filled b xs bytes f h = record {
  done = take-write_at b.content b.write_offset bytes (omega arith) ∙ ap (λ ys. ys ++ bytes) f.done;
  offset = omega (arith, length-append xs bytes);
  whole = length-write_at b.content b.write_offset bytes (omega arith) ∙ f.whole;
  inside = omega arith;
  small = f.small;
}

-- A write at an aligned offset stores the bytes of the value there, if they fit.
pub write_lem :
    (n v : ℕ) (xs : List ℕ) (b : Buffer)
    → Filled b xs
    → length xs % n ≡ 0
    → length xs + n ≤ b.size
    → write n v b ≡ ok (put b (le_bytes n v))
unfolding write next_write_offset padding
write_lem n v xs b f aligned h = ground (arith, length-le_bytes n v)

pub append_lem :
    (bytes xs : List ℕ) (b : Buffer)
    → Filled b xs
    → length xs + length bytes ≤ b.size
    → append bytes b ≡ ok (put b bytes)
unfolding append
append_lem bytes xs b f h = ground arith

-- The header of a message as its fields' bytes; the last four are not written.
abbrev pub header : List ℕ → ℕ → ℕ → ℕ → ℕ → ℕ → List ℕ
header session_id client_index_mask timestamp_ms message_type_id message_id size =
    ((((session_id ++ le_bytes 8 client_index_mask) ++ le_bytes 8 timestamp_ms)
        ++ le_bytes 4 message_type_id)
      ++ le_bytes 4 message_id)
    ++ le_bytes 4 size

-- A store at a literal offset that is the write offset.
abbrev store : ℕ → List ℕ → Buffer → Buffer
store offset bytes b = record b {
  content = write_at b.content offset bytes;
  write_offset = offset + length bytes;
}

store-Filled :
    (offset : ℕ) (bytes : List ℕ) (b : Buffer) (xs : List ℕ)
    → Filled b xs
    → b.write_offset ≡ offset
    → length xs + length bytes ≤ b.size
    → Filled (store offset bytes b) (xs ++ bytes)
store-Filled offset bytes b xs f e h =
    subst (λ o. Filled (store o bytes b) (xs ++ bytes)) e (put-Filled b xs bytes f h)

-- Four bytes that are left as they are count as written.
skip_four-Filled :
    (b : Buffer) (xs : List ℕ)
    → Filled b xs
    → b.write_offset ≡ 44
    → 48 ≤ b.size
    → (unused : List ℕ) × (length unused ≡ 4)
      × Filled (record b { write_offset = 48 }) (xs ++ unused)
skip_four-Filled b xs f o h =
    let unused = take 4 (drop 44 b.content) in
    let l : length unused ≡ 4 =
      omega (arith, length-take 4 (drop 44 b.content), length-drop 44 b.content, f.whole) in
    (
      unused,
      l,
      record {
        done =
            take-add 44 4 b.content
            ∙ ap (λ ys. ys ++ unused) (subst (λ n. take n b.content ≡ xs) o f.done);
        offset = omega (arith, length-append xs unused, f.offset);
        whole = f.whole;
        inside = h;
        small = f.small;
      },
    )

-- What the constructor leaves: the header, and then its four unused bytes.
pub start-Filled :
    (storage session_id : List ℕ) (mask type_id timestamp_ms message_id : ℕ)
    → length session_id ≡ 16
    → 48 ≤ length storage
    → length storage < u32_mod
    → let b = start storage session_id mask type_id timestamp_ms message_id in
      (unused : List ℕ) × (length unused ≡ 4)
      × Filled b (header session_id mask timestamp_ms type_id message_id (length storage) ++ unused)
      × (b.size ≡ length storage)
      × (length (header session_id mask timestamp_ms type_id message_id (length storage) ++ unused)
          ≡ 48)
unfolding start
start-Filled storage session_id mask type_id timestamp_ms message_id s l h =
    let b₀ : Buffer = record {
      content = storage;
      size = length storage;
      write_offset = 0;
      read_offset = 48;
    } in
    let f₀ : Filled b₀ [] = record {
      done = refl;
      offset = refl;
      whole = refl;
      inside = omega arith;
      small = h;
    } in
    let b₁ = store 0 session_id b₀ in
    let f₁ : Filled b₁ session_id = store-Filled 0 session_id b₀ [] f₀ refl (omega arith) in
    let b₂ = store 16 (le_bytes 8 mask) b₁ in
    let x₂ = session_id ++ le_bytes 8 mask in
    let f₂ : Filled b₂ x₂ = store-Filled 16 _ b₁ session_id f₁ (omega arith) (omega arith) in
    let b₃ = store 24 (le_bytes 8 timestamp_ms) b₂ in
    let x₃ = x₂ ++ le_bytes 8 timestamp_ms in
    let f₃ : Filled b₃ x₃ = store-Filled 24 _ b₂ x₂ f₂ refl (omega (arith, f₂.offset)) in
    let b₄ = store 32 (le_bytes 4 type_id) b₃ in
    let x₄ = x₃ ++ le_bytes 4 type_id in
    let f₄ : Filled b₄ x₄ = store-Filled 32 _ b₃ x₃ f₃ refl (omega (arith, f₃.offset)) in
    let b₅ = store 36 (le_bytes 4 message_id) b₄ in
    let x₅ = x₄ ++ le_bytes 4 message_id in
    let f₅ : Filled b₅ x₅ = store-Filled 36 _ b₄ x₄ f₄ refl (omega (arith, f₄.offset)) in
    let b₆ = store 40 (le_bytes 4 (length storage)) b₅ in
    let x₆ = x₅ ++ le_bytes 4 (length storage) in
    let f₆ : Filled b₆ x₆ = store-Filled 40 _ b₅ x₅ f₅ refl (omega (arith, f₅.offset)) in
    let (unused, n, g) = skip_four-Filled b₆ x₆ f₆ refl l in
    let z : length storage % u32_mod ≡ length storage = omega arith in
    (unused, n, rw z g, z, sym g.offset)
