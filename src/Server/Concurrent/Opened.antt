-- ===== src/Server/Concurrent/Opened.antt =====
-- Servers whose stores were opened from files of any contents, damaged and forged ones included.
use lowlatency.Common.{◌+◌, ◌*◌, ◌^◌, ◌<◌, ◌≡◌, Bytes, length, All, ok}
use lowlatency.Kv.GoFunction.{GoFunction, Answers}
use lowlatency.Kv.Header
use lowlatency.Kv.Header.{Header}
use lowlatency.Kv.Record.{record_size}
use lowlatency.Kv.Store.{KvStore, open_bytes}
use lowlatency.Kv.Store.Accepted.{open_bytes-get-iter}
use lowlatency.Server.Service.{Status}
use lowlatency.Server.Concurrent.{Server, Reach, started, IsTotal}
use lowlatency.Server.Concurrent.Reloads.{ReloadsWith, ReloadsWith-map}
use lowlatency.Server.Concurrent.Totals.{IsReplied}
use lowlatency.Server.Concurrent.Drained.{started-replied}

-- A store that `open` gives for a file of less than 2^64 bytes, whose header places the end of the
-- data section below 2^64 and whose hash function panics at no key.
pub record IsOpened {go : GoFunction} (s : KvStore go) : Type 0 where
  pub bytes : Bytes
  pub header : Header
  pub small : length bytes < 2 ^ 64
  pub parsed : Header.from_bytes bytes ≡ ok header
  pub opens : open_bytes go bytes ≡ ok s
  pub total : Answers go s.mphf.function
  pub straight : header.data_offset + header.record_count * record_size < 2 ^ 64

IsOpened-IsTotal : {go : GoFunction} (s : KvStore go) → IsOpened s → IsTotal go s
IsOpened-IsTotal s file key =
    (open_bytes-get-iter Status _ file.bytes file.header s key file.small file.parsed file.opens
      file.straight file.total).0

-- A server that starts with a store that was opened from a file, of any contents but with its data
-- section below 2^64 and a hash function that panics at no key, and that is reloaded with such
-- stores only: from every state that it can reach there are further steps to a state with the same
-- number of requests in which all of them have been replied to.
pub opened-replied :
    (go : GoFunction) (store : KvStore go) {w : Server go}
    → IsOpened store
    → (run : Reach go (started go store) w) → ReloadsWith IsOpened run
    → (v : Server go) × Reach go w v
      × All IsReplied v.requests
      × (length v.requests ≡ length w.requests)
opened-replied go store file run files =
    started-replied go store (IsOpened-IsTotal store file) run
      (ReloadsWith-map IsOpened (IsTotal go) IsOpened-IsTotal run files)
