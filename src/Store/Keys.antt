-- ===== src/Store/Keys.antt =====
-- store/mod.rs, conv_key: the key says the type and the talker.
use qqflow_server.Prelude.{◌≡◌, refl, Bool, true, false, ◌&&◌}
use qqflow_server.Text.{Text, text_eq}
use qqflow_server.Types.{ChatType}
use qqflow_server.Store.{conv_key}

abbrev pub same_type : ChatType → ChatType → Bool
same_type ChatType.group ChatType.group = true
same_type ChatType.c2c ChatType.c2c = true
same_type _ _ = false

pub conv_key-test :
    (a b : ChatType) (s t : Text)
    → text_eq (conv_key a s) (conv_key b t) ≡ (same_type a b && text_eq s t)
unfolding conv_key
conv_key-test ChatType.group ChatType.group s t = refl
conv_key-test ChatType.group ChatType.c2c s t = refl
conv_key-test ChatType.c2c ChatType.group s t = refl
conv_key-test ChatType.c2c ChatType.c2c s t = refl
