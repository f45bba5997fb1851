-- ===== src/Memcached/Commands.antt =====
-- The text protocol of memcached-sr/memcached.c: a connection and its answers.
pub mod Ascii
pub mod Update
pub mod Release
pub mod Outcome
pub mod TooLarge
use Prim.Native.String.{String, len}
use bmc_cache.Base.{
  ℕ, zero, suc, ◌+◌, ◌*◌, ◌-◌, Bool, true, false, not, ◌&&◌, ◌||◌, List, [], ◌∷◌, ltb, leb, ◌==◌,
  if◌then◌else◌, length,
}
use bmc_cache.Memcached.Assoc.{same_key}
use bmc_cache.Memcached.StoreItem.{Command}

-- enum conn_states
pub data ConnState : Type 0 where
  conn_listening : ConnState
  conn_new_cmd : ConnState
  conn_waiting : ConnState
  conn_read : ConnState
  conn_parse_cmd : ConnState
  conn_write : ConnState
  conn_nread : ConnState
  conn_swallow : ConnState
  conn_closing : ConnState
  conn_mwrite : ConnState
  conn_closed : ConnState
  conn_watch : ConnState
  conn_max_state : ConnState

-- What the write buffer holds: a text, the digits of a number, or the mark of a meta command and
-- what it had behind.
pub data Answer : Type 0 where
  text : String → Answer
  digits : List ℕ → Answer
  marked : String → Answer → Answer

-- The conn of a text client over TCP, without its buffers but for the answer. `item` is 0 for NULL, and
-- `ilist` has the items from `icurr` on, as many as `ileft` says.
pub record Conn : Type 0 where
  pub state : ConnState
  pub write_and_go : ConnState
  pub wbuf : Answer
  pub wbytes : ℕ
  pub wsize : ℕ
  pub rlbytes : ℕ
  pub sbytes : ℕ
  pub item : ℕ
  pub cmd : Command
  pub noreply : Bool
  pub set_stale : Bool
  pub mset_res : Bool
  pub iovused : ℕ
  pub msgsize : ℕ
  pub msgused : ℕ
  pub msgcurr : ℕ
  pub msgbytes : ℕ
  pub ilist : List ℕ

-- Without libevent and tracing, the state.
abbrev pub conn_set_state : Conn → ConnState → Conn
conn_set_state c s = record c { state = s }

-- `grown`: realloc has memory. The second result is the one of the function, true for 0.
unfoldable pub add_msghdr : Bool → Conn → Conn × Bool
add_msghdr grown c =
    let full = c.msgsize == c.msgused in
    if full && not grown then (c, false) else (
      record c {
        msgsize = if full then c.msgsize * 2 else c.msgsize;
        msgbytes = 0;
        msgused = c.msgused + 1;
      },
      true,
    )

abbrev pub answer_length : Answer → ℕ
answer_length (text s) = len s
answer_length (digits ds) = length ds
answer_length (marked s rest) = len s + answer_length rest

abbrev pub too_long : Answer
too_long = text "SERVER_ERROR output line too long"

unfoldable pub out_string : Bool → Conn → Answer → Conn
out_string grown c str =
    let c1 = (add_msghdr grown (record c { msgcurr = 0; msgused = 0; iovused = 0 })).0 in
    let sent = if ltb c.wsize (answer_length str + 2) then too_long else str in
    if c.noreply then conn_set_state (record c { noreply = false }) conn_new_cmd else record c1 {
      wbuf = sent;
      wbytes = answer_length sent + 2;
      state = conn_write;
      write_and_go = conn_new_cmd;
    }

unfoldable pub out_mstring : Conn → Bool → Conn
out_mstring c use_noreply =
    if c.noreply && use_noreply
    then conn_set_state (record c { noreply = false }) conn_new_cmd
    else record c { wbytes = c.wbytes + 2; state = conn_write; write_and_go = conn_new_cmd }

-- The words before the terminal token, `tokens[i].value`.
unfoldable pub token : List (List ℕ) → ℕ → List ℕ
token [] i = []
token (w ∷ ws) zero = w
token (w ∷ ws) (suc i) = token ws i

-- "noreply"
abbrev pub noreply_word : List ℕ
noreply_word = b'n' ∷ b'o' ∷ b'r' ∷ b'e' ∷ b'p' ∷ b'l' ∷ b'y' ∷ []

-- The index is that of the last word, `ntokens - 2`.
unfoldable pub set_noreply_maybe : Conn → List (List ℕ) → Conn
set_noreply_maybe c words =
    if same_key (token words (length words - 1)) noreply_word
    then record c { noreply = true }
    else c
