-- ===== src/Common/Uid/Tests.antt =====
-- An identifier and its text.
use voxen.Prelude.{◌≡◌, some, arith}
use voxen.Common.Uid.{Uid, to_chars, from_chars}
use voxen.Common.Uid.RoundTrip.{from_chars-to_chars}

abbrev some_uid : Uid
some_uid = record { v0 = 13960098441230065460; v1 = 11582083303476300699 }

from_chars-to_chars_example : from_chars (to_chars some_uid) ≡ some some_uid
from_chars-to_chars_example = from_chars-to_chars some_uid (omega arith) (omega arith)
