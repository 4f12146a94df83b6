-- ===== src/Gtm/Transactions.antt =====
-- The ids that are handed out, and the file of transaction types.
use grit.Common.{
  leb, if◌then◌else◌, ltb-true, eq_false, length, drop, length-append, take-append_length,
  drop-append_length, All, word_mod, incr, Text, same_text, substr, stoi, ℕ, suc, ◌+◌, ◌-◌, ◌%◌,
  ◌≤◌, ◌<◌, ◌≡◌, refl, sym, ap, ◌∙◌, fun_ext, ◌≢◌, true, some, List, [], ◌∷◌, ◌++◌, map,
  append_assoc, append-nil, arith, ok,
}
use grit.Net.{app_msg, create_ip_and_port, create_app_msg, Conn, Sent}
use grit.Net.HeaderCmd.{k_txid}
use grit.Gtm.{IpandPort, Gtm, get_txid, add_server, read_server, read_servers, size_mod}

-- Requests for ids, in the order of their arrival.
pub get_all : List (Conn × Text) → Gtm → Gtm
get_all [] g = g
get_all ((conn, type) ∷ asked) g = get_all asked (get_txid conn type g)

-- The answers: the k-th request gets the id `first + k`, modulo 2 ^ 32, and the servers of its type.
unfoldable pub handed_out : (Text → List IpandPort) → ℕ → ℕ → List (Conn × Text) → List Sent
handed_out trans_info first k [] = []
handed_out trans_info first k ((conn, type) ∷ asked) =
    (
      conn,
      app_msg (
          create_app_msg k_txid ((first + k) % word_mod)
            (some (map (λ e. create_ip_and_port (some e.ip) e.port) (trans_info type)))),
    )
    ∷ handed_out trans_info first (suc k) asked

pub handed_out-later :
    (trans_info : Text → List IpandPort) (first k : ℕ) (asked : List (Conn × Text))
    → handed_out trans_info (incr first) k asked ≡ handed_out trans_info first (suc k) asked
unfolding handed_out
handed_out-later trans_info first k [] = refl
handed_out-later trans_info first k ((conn, type) ∷ asked) =
    let e : (incr first + k) % word_mod ≡ (first + suc k) % word_mod = omega arith in
    rw (e, handed_out-later trans_info first (suc k) asked) refl

-- Requests are answered in their order, with consecutive ids modulo 2 ^ 32, and the servers of the
-- types asked for.
pub outbox-get_all :
    (asked : List (Conn × Text)) (g : Gtm)
    → g.txid < word_mod
    → (get_all asked g).outbox ≡ g.outbox ++ handed_out g.trans_info g.txid 0 asked
unfolding get_all get_txid handed_out
outbox-get_all [] g h = sym (append-nil g.outbox)
outbox-get_all ((conn, type) ∷ asked) g h =
    let e : (g.txid + 0) % word_mod ≡ g.txid = omega arith in
    rw
      (
        outbox-get_all asked (get_txid conn type g) (omega arith),
        handed_out-later g.trans_info g.txid 0 asked,
        e,
      )
      (append_assoc g.outbox _ (handed_out g.trans_info g.txid 1 asked))

-- An entry of the file: an address, and a port that is written in digits.
pub record Server : Type 0 where
  pub address : Text
  pub digits : Text
  pub port : ℕ

-- No separator in the text.
abbrev pub IsPlain : Text → Type 0
IsPlain = All (λ c. (c ≢ b':') × (c ≢ b';'))

abbrev pub IsServer : Server → Type 0
IsServer s = IsPlain s.address × IsPlain s.digits × (stoi s.digits ≡ ok s.port)

-- `address:digits;`, and what follows it.
abbrev pub entry : Server → Text → Text
entry s rest = s.address ++ (b':' ∷ (s.digits ++ (b';' ∷ rest)))

-- The servers as in config/transactions.ini.
unfoldable pub written : List Server → Text
written [] = []
written (s ∷ ss) = entry s (written ss)

-- What is read: each address keeps its colon.
pub listed : List Server → List IpandPort
listed [] = []
listed (s ∷ ss) = record { ip = s.address ++ b':' ∷ []; port = s.port } ∷ listed ss

-- A run of plain characters is passed over.
read_servers-plain :
    (type info s rest : Text) (st ed pos : ℕ) (trans_info : Text → List IpandPort)
    → IsPlain s
    → read_servers type info (s ++ rest) st ed pos trans_info
      ≡ read_servers type info rest st (ed + length s) pos trans_info
unfolding read_servers
read_servers-plain type info [] rest st ed pos trans_info h =
    ap (λ (e : ℕ). read_servers type info rest st e pos trans_info) (omega arith)
read_servers-plain type info (c ∷ s) rest st ed pos trans_info h =
    rw (eq_false h.0.0, eq_false h.0.1)
      (read_servers-plain type info s rest st (ed + 1) pos trans_info h.1
        ∙ ap (λ (e : ℕ). read_servers type info rest st e pos trans_info) (omega arith))

substr-middle :
    (info a b c : Text) (start len : ℕ)
    → info ≡ a ++ (b ++ c)
    → start ≡ length a
    → len ≡ length b
    → substr info start len ≡ ok b
unfolding substr
substr-middle info a b c start len e hs hl =
    let inside : start ≤ length info = omega (arith, ap length e, length-append a (b ++ c)) in
    let found : leb start (length info) ≡ true = ground arith in
    let behind : drop start info ≡ b ++ c = rw e (drop-append_length start a (b ++ c) hs) in
    rw (found, behind, take-append_length len b c hl) refl

colon_behind : (s rest : Text) → s ++ (b':' ∷ rest) ≡ (s ++ b':' ∷ []) ++ rest
colon_behind s rest = sym (append_assoc s (b':' ∷ []) rest)

-- The two parts of an entry that begins behind `before`.
read_server-entry :
    (before rest : Text) (s : Server)
    → IsServer s
    → length (before ++ entry s rest) < size_mod
    → read_server
        (before ++ entry s rest)
        (length before)
        (length before + length s.address + 1 + length s.digits)
        (length before + length s.address)
      ≡ ok (record { ip = s.address ++ b':' ∷ []; port = s.port })
unfolding read_server
read_server-entry before rest s h small =
    let info = before ++ entry s rest in
    let ip = s.address ++ b':' ∷ [] in
    let behind = s.digits ++ (b';' ∷ rest) in
    let total_length : length info
        ≡ length before + (length s.address + suc (length s.digits + suc (length rest))) =
      omega (
        arith,
        length-append before (entry s rest),
        length-append s.address (b':' ∷ behind),
        length-append s.digits (b';' ∷ rest),
      ) in
    let ip_length = length-append s.address (b':' ∷ []) in
    let first : info ≡ before ++ (ip ++ behind) =
      ap (◌++◌ before) (colon_behind s.address behind) in
    let second : info ≡ (before ++ ip) ++ behind = first ∙ sym (append_assoc before ip behind) in
    let pos = length before + length s.address in
    let ed = pos + 1 + length s.digits in
    rw
      (
        substr-middle info before ip behind (length before)
            ((pos + 1 + (size_mod - length before)) % size_mod) first refl (omega arith),
        substr-middle info (before ++ ip) s.digits (b';' ∷ rest) ((pos + 1) % size_mod)
            ((ed + (size_mod - pos) + (size_mod - 1)) % size_mod) second
            (omega (arith, length-append before ip)) (omega arith),
        h.2,
      )
      refl

abbrev pub add_servers : Text → List IpandPort → (Text → List IpandPort) → Text → List IpandPort
add_servers type servers trans_info t =
    if same_text type t then trans_info t ++ servers else trans_info t

add_server-add_servers :
    (type : Text) (server : IpandPort) (servers : List IpandPort)
    (trans_info : Text → List IpandPort)
    → add_servers type servers (add_server type server trans_info)
      ≡ add_servers type (server ∷ servers) trans_info
unfolding add_server
add_server-add_servers type server servers trans_info =
    fun_ext λ t. ground (arith, append_assoc (trans_info t) (server ∷ []) servers)

read_servers-colon :
    (type info rest : Text) (st ed pos : ℕ) (trans_info : Text → List IpandPort)
    → read_servers type info (b':' ∷ rest) st ed pos trans_info
      ≡ read_servers type info rest st (ed + 1) ed trans_info
unfolding read_servers
read_servers-colon type info rest st ed pos trans_info = refl

-- The step at the end of an entry.
read_servers-semicolon :
    (type info rest : Text) (st ed pos : ℕ) (trans_info : Text → List IpandPort)
    (server : IpandPort)
    → st < ed
    → read_server info st ed pos ≡ ok server
    → read_servers type info (b';' ∷ rest) st ed pos trans_info
      ≡ read_servers type info rest (ed + 1) (ed + 1) pos (add_server type server trans_info)
unfolding read_servers
read_servers-semicolon type info rest st ed pos trans_info server lt e = rw (ltb-true lt, e) refl

-- The loop over the characters, behind `before`.
read_servers-behind :
    (type info before : Text) (ss : List Server) (st pos : ℕ) (trans_info : Text → List IpandPort)
    → All IsServer ss
    → info ≡ before ++ written ss
    → st ≡ length before
    → length info < size_mod
    → read_servers type info (written ss) st st pos trans_info
      ≡ ok (add_servers type (listed ss) trans_info)
unfolding written listed
read_servers-behind type info before [] st pos trans_info h e hst small =
    unfold read_servers in ap ok (fun_ext λ t. ground (arith, append-nil (trans_info t)))
read_servers-behind type info before (s ∷ ss) st pos trans_info (hs, h) e hst small =
    let p = st + length s.address in
    let ed = p + 1 + length s.digits in
    let server : IpandPort = record { ip = s.address ++ b':' ∷ []; port = s.port } in
    let last = s.digits ++ (b';' ∷ []) in
    let before' = before ++ (s.address ++ (b':' ∷ last)) in
    let same : before ++ entry s (written ss) ≡ before' ++ written ss = simp append_assoc in
    let width : ed + 1 ≡ length before' = omega (
      arith,
      length-append before (s.address ++ (b':' ∷ last)),
      length-append s.address (b':' ∷ last),
      length-append s.digits (b';' ∷ []),
    ) in
    let found : read_server info st ed p ≡ ok server =
      rw (e, hst) (read_server-entry before (written ss) s hs (rw e at small)) in
    read_servers-plain type info s.address _ st st pos trans_info hs.0
    ∙ read_servers-colon type info _ st p pos trans_info
    ∙ read_servers-plain type info s.digits _ st (p + 1) p trans_info hs.1
    ∙ read_servers-semicolon type info (written ss) st ed p trans_info server (omega arith) found
    ∙ read_servers-behind type info before' ss (ed + 1) p (add_server type server trans_info) h
        (e ∙ same) width small
    ∙ ap ok (add_server-add_servers type server (listed ss) trans_info)

-- A list of servers that is written in the form of the file, in fewer than 2 ^ 64 characters, is
-- read back whole and in order, with the ports that its digits stand for; the addresses come back
-- with the colon behind them.
pub read_servers-written :
    (type : Text) (ss : List Server) (trans_info : Text → List IpandPort)
    → All IsServer ss
    → length (written ss) < size_mod
    → read_servers type (written ss) (written ss) 0 0 (size_mod - 1) trans_info
      ≡ ok (add_servers type (listed ss) trans_info)
read_servers-written type ss trans_info h small =
    read_servers-behind type (written ss) [] ss 0 (size_mod - 1) trans_info h refl refl small
