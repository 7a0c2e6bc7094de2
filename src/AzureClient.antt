-- ===== src/AzureClient.antt =====
-- package/libevi-azure/src/libevi_azure.c: the client of a socket of the agent.
use python2c.Base.{
  ℕ, ◌-◌, List, [], ◌∷◌, ◌++◌, Option, none, some, Bytes, codes, starts_with, take, if◌then◌else◌,
  ◌==◌, ℤ, pos, negsuc,
}
use python2c.Lcdclient.{Peer, Event, opened, closed, connect, sent}

abbrev pub sock_path : Bytes
sock_path = codes "/var/run/azureiotd.sock"

-- The reply of at most 127 bytes; a `none` is a `read` that gives nothing.
unfoldable pub reply_code : Option Bytes → ℤ
reply_code none = negsuc 2
reply_code (some buf) = if starts_with (take 127 buf) (codes "OK") then pos 0 else negsuc 3

module _ (peer : Peer) where
  unfoldable pub send_cmd : Bytes → List Event × ℤ
  unfolding reply_code
  send_cmd cmd =
      if peer.socket_ok
      then if peer.connect_ok sock_path
        then (
          opened ∷ connect sock_path ∷ sent cmd ∷ sent (b'\n' ∷ []) ∷ closed ∷ [],
          reply_code (peer.answer (cmd ++ (b'\n' ∷ []))),
        )
        else (opened ∷ connect sock_path ∷ closed ∷ [], negsuc 1)
      else ([], negsuc 0)

  -- `snprintf` into 4096 bytes.
  unfoldable pub evi_azure_send_json : Option Bytes → List Event × ℤ
  evi_azure_send_json none = ([], negsuc 0)
  evi_azure_send_json (some json) = send_cmd (take 4095 (codes "SEND " ++ json))

  -- What `out`, with room for `outlen` bytes, gets: the reply, cut so that the ending zero fits.
  -- With no room `read` gives nothing.
  unfoldable pub status_text : ℕ → Option Bytes → ℤ × Option Bytes
  status_text outlen none = (negsuc 2, none)
  status_text outlen (some buf) =
      if outlen == 0 then (negsuc 2, none) else (pos 0, some (take (outlen - 1) buf))

  unfoldable pub evi_azure_status : ℕ → List Event × (ℤ × Option Bytes)
  unfolding status_text
  evi_azure_status outlen =
      if peer.socket_ok
      then if peer.connect_ok sock_path
        then (
          opened ∷ connect sock_path ∷ sent (codes "STATUS\n") ∷ closed ∷ [],
          status_text outlen (peer.answer (codes "STATUS\n")),
        )
        else (opened ∷ connect sock_path ∷ closed ∷ [], (negsuc 1, none))
      else ([], (negsuc 0, none))
