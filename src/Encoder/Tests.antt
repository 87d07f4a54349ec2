-- ===== src/Encoder/Tests.antt =====
-- An encoding at a concrete input.
use webx_engine.Common.{ℕ, zero, suc, ◌≡◌, refl, ap, List, [], ◌∷◌, length, arith}
use webx_engine.Common.Int.{pos, negsuc}
use webx_engine.Message.{Message, mouse}
use webx_engine.Encoder.{Env, encode}
use webx_engine.Encoder.Layout.{layout, IsEnv, IsEncoding}
use webx_engine.Encoder.Exact.{encode-layout}

abbrev zeros : ℕ → List ℕ
zeros zero = []
zeros (suc n) = 0 ∷ zeros n

length-zeros : (n : ℕ) → length (zeros n) ≡ n
length-zeros zero = refl
length-zeros (suc n) = ap suc (length-zeros n)

abbrev pub env : Env
env = record {
  session_id = zeros 16;
  storage = zeros;
  float_bits = λ x. x;
  timestamp_ms = 123_456;
  message_id = 8;
}

env-IsEnv : IsEnv env
env-IsEnv = record { session = refl; storage = length-zeros }

abbrev pub moved : Message
moved = record {
  client_index_mask = 3;
  command_id = 12;
  payload = mouse (record { x = negsuc 4; y = pos 300; cursor_id = 9 });
}

encode-layout_example :
    IsEncoding env moved (layout env.float_bits moved.command_id moved.payload) (encode env moved)
encode-layout_example = encode-layout env moved env-IsEnv tt (omega arith)
