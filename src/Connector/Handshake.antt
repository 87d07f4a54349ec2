-- ===== src/Connector/Handshake.antt =====
-- What a client that connects and disconnects gets.
use webx_engine.Common.{
  All-append, ℕ, ◌^◌, ◌<◌, ◌≡◌, refl, true, [], ◌∷◌, ◌++◌, Option, some, ok, arith,
}
use webx_engine.Message.{Version}
use webx_engine.Gateway.{Gateway, on_client_connect, on_client_disconnect}
use webx_engine.Text.{Text, codes, same_text, has_prefix, split}
use webx_engine.Text.Split.{Lacks, split-append, split-token}
use webx_engine.Text.Numbers.{print_hex, print, stoul, decimal, hexadecimal}
use webx_engine.Text.RoundTrip.{stoul-print_hex, print_hex-IsNumeral, print-IsNumeral}
use webx_engine.Text.Hex.{to_uint32, to_uint32-print_hex}
use webx_engine.Version.{version_string}
use webx_engine.Version.RoundTrip.{IsVersion, parse-version_string, All-weaken, split_last}
use webx_engine.Connector.{
  ConnectorSettings, with_comma, answer_command, connect_command, disconnect_command,
  connect_client, disconnect_client, disconnect_reply,
}

pub same_text_self : (t : Text) → same_text t t ≡ true
unfolding same_text
same_text_self [] = refl
same_text_self (c ∷ t) = ground (arith, same_text_self t)

-- The commands that a client sends.
abbrev pub connect_request : Text → Version → Text
connect_request session_id v =
    with_comma (codes "connect") (with_comma session_id (version_string v))

abbrev pub disconnect_request : Text → Text → Text
disconnect_request session_id client_id =
    with_comma (codes "disconnect") (with_comma session_id client_id)

version-Lacks : (v : Version) → Lacks b',' (version_string v)
unfolding version_string
version-Lacks v =
    let numeral =
      λ (n : ℕ). All-weaken b',' (print decimal n) (omega arith) (print-IsNumeral decimal n).0 in
    All-append _ (print decimal v.major) _ (numeral v.major) (
      λ e. omega arith,
      All-append _ (print decimal v.minor) _ (numeral v.minor) (λ e. omega arith, numeral v.patch),
    )

split_joined :
    (d c : ℕ) (s t : Text) → Lacks d (s ++ c ∷ t) → split (s ++ c ∷ t) d ≡ (s ++ c ∷ t) ∷ []
split_joined d c [] t h = split-token d c t h
split_joined d c (e ∷ s) t h = split-token d e (s ++ c ∷ t) h

split-version : (v : Version) → split (version_string v) b',' ≡ version_string v ∷ []
unfolding version_string
split-version v = split_joined b',' b'.' (print decimal v.major) _ (version-Lacks v)

hex-Lacks : (w n : ℕ) → Lacks b',' (print_hex w n)
hex-Lacks w n = All-weaken b',' (print_hex w n) (omega arith) (print_hex-IsNumeral w n).0

split-hex : (w n : ℕ) → split (print_hex w n) b',' ≡ print_hex w n ∷ []
split-hex w n =
    split_last hexadecimal b',' (print_hex w n) (print_hex-IsNumeral w n).1 (hex-Lacks w n)

split-command :
    (command session_id last : Text)
    → Lacks b',' command
    → Lacks b',' session_id
    → split last b',' ≡ last ∷ []
    → split (with_comma command (with_comma session_id last)) b','
      ≡ command ∷ session_id ∷ last ∷ []
split-command command session_id last h g e =
    rw
      (
        split-append b',' command (with_comma session_id last) h,
        split-append b',' session_id last g,
        e,
      )
      refl

split-connect :
    (session_id : Text) (v : Version)
    → Lacks b',' session_id
    → split (connect_request session_id v) b','
      ≡ codes "connect" ∷ session_id ∷ version_string v ∷ []
split-connect session_id v h =
    split-command (codes "connect") session_id (version_string v) (omega arith) h (split-version v)

split-disconnect :
    (session_id : Text) (i : ℕ)
    → Lacks b',' session_id
    → split (disconnect_request session_id (print_hex 8 i)) b','
      ≡ codes "disconnect" ∷ session_id ∷ print_hex 8 i ∷ []
split-disconnect session_id i h =
    split-command (codes "disconnect") session_id (print_hex 8 i) (omega arith) h (split-hex 8 i)

module _ (S : Type 0) (gateway : Gateway S) (describe : Text → Option Text)
    (settings : ConnectorSettings) where
  -- The answer to a connection, what a client reads in it, and the answer when it disconnects.
  pub record IsHandshake (v : Version) (s : S) (i index : ℕ) (s' : S) : Type 0 where
    pub reply : Text
    pub connects :
        answer_command S gateway describe settings (connect_request settings.session_id v) s
        ≡ some (some reply, s')
    pub parts : split reply b',' ≡ print_hex 8 i ∷ print_hex 16 index ∷ []
    pub identifier : to_uint32 describe (print_hex 8 i) ≡ some (ok i)
    pub mask : stoul (print_hex 16 index) ≡ some index
    pub disconnects :
        answer_command S gateway describe settings
          (disconnect_request settings.session_id (print_hex 8 i))
          s'
        ≡ some (disconnect_reply S gateway describe settings (on_client_disconnect S gateway i s'))

module _ (S : Type 0) (gateway : Gateway S) (describe : Text → Option Text)
    (settings : ConnectorSettings) (plain : Lacks b',' settings.session_id) where
  answer_command-connect :
      (v : Version) (s : S)
      → answer_command S gateway describe settings (connect_request settings.session_id v) s
        ≡ connect_command S gateway describe settings
            (codes "connect" ∷ settings.session_id ∷ version_string v ∷ [])
            s
  unfolding answer_command same_text has_prefix
  answer_command-connect v s = rw (split-connect settings.session_id v plain) refl

  answer_command-disconnect :
      (i : ℕ) (s : S)
      → answer_command S gateway describe settings
          (disconnect_request settings.session_id (print_hex 8 i))
          s
        ≡ some (
            disconnect_command S gateway describe settings
              (codes "disconnect" ∷ settings.session_id ∷ print_hex 8 i ∷ [])
              s)
  unfolding answer_command same_text has_prefix
  answer_command-disconnect i s = rw (split-disconnect settings.session_id i plain) refl

  connect-lem :
      (v : Version) (s s' : S) (i index : ℕ)
      → IsVersion v
      → on_client_connect S gateway v s ≡ some (ok (i, index), s')
      → answer_command S gateway describe settings (connect_request settings.session_id v) s
        ≡ some (some (with_comma (print_hex 8 i) (print_hex 16 index)), s')
  unfolding connect_command connect_client
  connect-lem v s s' i index h e =
      rw
        (
          answer_command-connect v s,
          same_text_self settings.session_id,
          parse-version_string v h,
          e,
        )
        refl

  disconnect-lem :
      (i : ℕ) (s : S)
      → i < 2 ^ 32
      → answer_command S gateway describe settings
          (disconnect_request settings.session_id (print_hex 8 i))
          s
        ≡ some (disconnect_reply S gateway describe settings (on_client_disconnect S gateway i s))
  unfolding disconnect_command disconnect_client
  disconnect-lem i s h =
      rw
        (
          answer_command-disconnect i s,
          same_text_self settings.session_id,
          to_uint32-print_hex describe 8 i h,
        )
        refl

  -- A session identifier without a comma, a version with components below 2 ^ 31, and a call of the
  -- gateway's connection function that gives an identifier of 32 bits and an index of 64 bits. To the
  -- command "connect" with that session and version the connector calls the function with the same
  -- version, and its reply has two parts, which are read as the identifier and the index; to the command
  -- "disconnect" with the first part it calls the gateway's disconnection function with the identifier.
  pub handshake :
      (v : Version) (s s' : S) (i index : ℕ)
      → IsVersion v
      → i < 2 ^ 32
      → index < 2 ^ 64
      → on_client_connect S gateway v s ≡ some (ok (i, index), s')
      → IsHandshake S gateway describe settings v s i index s'
  handshake v s s' i index h g k e = record {
    reply = with_comma (print_hex 8 i) (print_hex 16 index);
    connects = connect-lem v s s' i index h e;
    parts =
        rw
          (
            split-append b',' (print_hex 8 i) (print_hex 16 index) (hex-Lacks 8 i),
            split-hex 16 index,
          )
          refl;
    identifier = to_uint32-print_hex describe 8 i g;
    mask = stoul-print_hex 16 index k;
    disconnects = disconnect-lem i s' g;
  }
