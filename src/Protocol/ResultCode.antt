-- ===== src/Protocol/ResultCode.antt =====
-- `mod result` of meridian-relay/src/daemon/protocol.rs: the codes of a result response.
use ius.Base.{ℕ}

abbrev pub ok : ℕ
ok = 0

abbrev pub bad_command : ℕ
bad_command = 1

abbrev pub bad_device : ℕ
bad_device = 2

abbrev pub connection_refused : ℕ
connection_refused = 3

abbrev pub pair_record_required : ℕ
pair_record_required = 8
