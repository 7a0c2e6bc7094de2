-- ===== src/Lcdclient/Ctl.antt =====
-- package/evi-lcdsvc/src/lcdctl.c: the command line over the daemon's socket.
pub mod Same
use python2c.Base.{
  ℕ, Bool, true, false, List, [], ◌∷◌, ◌++◌, Option, none, some, Bytes, codes, str_eq, take,
  if◌then◌else◌,
}
use python2c.Lcdclient.{Peer, Event, opened, closed, connect, sent, first_sock_path}

-- What a run does on the socket and prints, and its exit status.
pub record Ran : Type 0 where
  pub events : List Event
  pub output : Bytes
  pub status : ℕ

-- The reply as it is printed: nothing if `read` gives none.
abbrev pub shown : Option Bytes → Bytes
shown none = []
shown (some buf) = buf

-- `strncat` with what is left of 512 bytes.
abbrev pub strncat_512 : Bytes → Bytes → Bytes
strncat_512 buf s = take 511 (buf ++ s)

-- The loop over the arguments, a space behind each but the last.
unfoldable pub put_words : Bytes → List Bytes → Bytes
put_words buf [] = buf
put_words buf (a ∷ []) = strncat_512 buf a
put_words buf (a ∷ b ∷ rest) = put_words (strncat_512 (strncat_512 buf a) (codes " ")) (b ∷ rest)

abbrev pub usage : Ran
usage = record { events = []; output = []; status = 1 }

module _ (peer : Peer) where
  unfoldable pub send_cmd : Bytes → Ran
  send_cmd cmd =
      if peer.socket_ok
      then if peer.connect_ok first_sock_path
        then record {
          events = opened ∷ connect first_sock_path ∷ sent (cmd ++ (b'\n' ∷ [])) ∷ closed ∷ [];
          output = shown (peer.answer (cmd ++ (b'\n' ∷ [])));
          status = 0;
        }
        else record {
          events = opened ∷ connect first_sock_path ∷ closed ∷ [];
          output = [];
          status = 1;
        }
      else record { events = []; output = []; status = 1 }

  -- The arguments after the program's name.
  unfoldable pub main : List Bytes → Ran
  main [] = usage
  main (cmd ∷ []) =
      if str_eq cmd (codes "init")
      then send_cmd (codes "INIT")
      else if str_eq cmd (codes "clear")
      then send_cmd (codes "CLEAR")
      else if str_eq cmd (codes "home")
      then send_cmd (codes "HOME")
      else usage
  main (cmd ∷ arg ∷ rest) =
      if str_eq cmd (codes "init")
      then send_cmd (codes "INIT")
      else if str_eq cmd (codes "clear")
      then send_cmd (codes "CLEAR")
      else if str_eq cmd (codes "home")
      then send_cmd (codes "HOME")
      else if str_eq cmd (codes "instr")
      then send_cmd (take 31 (codes "INSTR " ++ arg))
      else if str_eq cmd (codes "ddram")
      then send_cmd (take 31 (codes "DDRAM " ++ arg))
      else if str_eq cmd (codes "put")
      then send_cmd (put_words (codes "PUT ") (arg ∷ rest))
      else usage
