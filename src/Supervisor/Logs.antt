-- ===== src/Supervisor/Logs.antt =====
-- crates/quip-dashboard/src/supervisor.rs: the counters of the logs, and the message that a line of a
-- child becomes. The three roles that the source names by strings are a data type.
pub mod Accounting
use dashboard_quip_network.Prelude.{
  ℕ, ◌+◌, ◌%◌, Bool, true, false, ◌&&◌, ◌||◌, not, List, [], ◌∷◌, ◌++◌, map, length, ltb, ◌==◌,
  if◌then◌else◌,
}
use dashboard_quip_network.Prelude.Words.{wrapping_add, wrapping_sub}

abbrev pub max_datagram : ℕ
max_datagram = 65507

pub data Role : Type 0 where
  collector : Role
  backend : Role
  caddy : Role

pub record LogCounters : Type 0 where
  pub oversized_lines : ℕ
  pub stderr_dropped_lines : ℕ
  pub stderr_pending_lines : ℕ
  pub udp_dropped_lines : ℕ
  pub read_errors : ℕ

pub record LogStats : Type 0 where
  pub oversized_lines : ℕ
  pub stderr_dropped_lines : ℕ
  pub stderr_pending_lines : ℕ
  pub udp_dropped_lines : ℕ
  pub read_errors : ℕ

abbrev pub no_counters : LogCounters
no_counters = record {
  oversized_lines = 0;
  stderr_dropped_lines = 0;
  stderr_pending_lines = 0;
  udp_dropped_lines = 0;
  read_errors = 0;
}

unfoldable pub snapshot : LogCounters → LogStats
snapshot c = record {
  oversized_lines = c.oversized_lines;
  stderr_dropped_lines = c.stderr_dropped_lines;
  stderr_pending_lines = c.stderr_pending_lines;
  udp_dropped_lines = c.udp_dropped_lines;
  read_errors = c.read_errors;
}

-- The atomic operations on the counters.
unfoldable pub add_oversized : LogCounters → LogCounters
add_oversized c = record c { oversized_lines = wrapping_add c.oversized_lines 1 }

unfoldable pub add_read_error : LogCounters → LogCounters
add_read_error c = record c { read_errors = wrapping_add c.read_errors 1 }

unfoldable pub add_udp_dropped : LogCounters → LogCounters
add_udp_dropped c = record c { udp_dropped_lines = wrapping_add c.udp_dropped_lines 1 }

unfoldable pub add_dropped : LogCounters → LogCounters
add_dropped c = record c { stderr_dropped_lines = wrapping_add c.stderr_dropped_lines 1 }

unfoldable pub add_pending : LogCounters → LogCounters
add_pending c = record c { stderr_pending_lines = wrapping_add c.stderr_pending_lines 1 }

unfoldable pub sub_pending : LogCounters → LogCounters
sub_pending c = record c { stderr_pending_lines = wrapping_sub c.stderr_pending_lines 1 }

-- `quip-dashboard`, `caddy` and `syslog-ng`
unfoldable pub tag : Role → List ℕ
tag backend = 113 ∷ 117 ∷ 105 ∷ 112 ∷ 45 ∷ 100 ∷ 97 ∷ 115 ∷ 104 ∷ 98 ∷ 111 ∷ 97 ∷ 114 ∷ 100 ∷ []
tag caddy = 99 ∷ 97 ∷ 100 ∷ 100 ∷ 121 ∷ []
tag collector = 115 ∷ 121 ∷ 115 ∷ 108 ∷ 111 ∷ 103 ∷ 45 ∷ 110 ∷ 103 ∷ []

-- `byte.is_ascii_control()`
abbrev pub is_ascii_control : ℕ → Bool
is_ascii_control byte = ltb byte 32 || byte == 127

unfoldable pub clean_byte : ℕ → ℕ
clean_byte byte = if is_ascii_control byte && not (byte == 9) then 32 else byte

-- `<14>`, the tag, a colon and the cleaned bytes, without the newline.
unfoldable pub datagram : Role → List ℕ → List ℕ
datagram role line = 60 ∷ 49 ∷ 52 ∷ 62 ∷ [] ++ tag role ++ 58 ∷ 32 ∷ [] ++ map clean_byte line

abbrev pub is_collector : Role → Bool
is_collector collector = true
is_collector backend = false
is_collector caddy = false

-- The first half of `line`: the datagram, where `sent` is the answer of `send_to`.
unfoldable pub send_datagram : Role → List ℕ → Bool → LogCounters → LogCounters
send_datagram role line sent c =
    if not (is_collector role) && (ltb max_datagram (length (datagram role line)) || not sent)
    then add_udp_dropped c
    else c

-- The whole of `line` with no other thread in between; `accepted` is the answer of `try_send`.
unfoldable pub line : Role → List ℕ → Bool → Bool → LogCounters → LogCounters
line role bytes sent accepted c =
    let waiting = add_pending (send_datagram role bytes sent c) in
    if accepted then waiting else add_dropped (sub_pending waiting)
