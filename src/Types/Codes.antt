-- ===== src/Types/Codes.antt =====
-- The two code spaces of message types, `localType` and ChatLab's.
use qqflow_server.Prelude.{◌≡◌, refl}
use qqflow_server.Prelude.Int.{pos}
use qqflow_server.Types.{MsgType, type_code, from_code}

-- `code` loses nothing: `from_code` gives back the type of message.
pub from_code-type_code : (t : MsgType) → from_code (pos (type_code t)) ≡ t
unfolding from_code type_code
from_code-type_code MsgType.text = refl
from_code-type_code MsgType.image = refl
from_code-type_code MsgType.voice = refl
from_code-type_code MsgType.video = refl
from_code-type_code MsgType.recall = refl
from_code-type_code MsgType.system = refl
from_code-type_code MsgType.other = refl
