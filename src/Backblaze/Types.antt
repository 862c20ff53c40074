-- ===== src/Backblaze/Types.antt =====
-- The mime types that `B2Interface.__init__` of kh_common/backblaze.py sets, with those of the caller
-- over them.
use kh_common.Prelude.{[], ◌∷◌}
use kh_common.Prelude.Dict
use kh_common.Prelude.Dict.{Dict}
use kh_common.Prelude.Text.{Text, Text-discrete, codes}

abbrev pub default_types : Dict Text Text
default_types =
    (codes "jpg", codes "image/jpeg")
    ∷ (codes "jpeg", codes "image/jpeg")
    ∷ (codes "png", codes "image/png")
    ∷ (codes "webp", codes "image/webp")
    ∷ (codes "gif", codes "image/gif")
    ∷ (codes "webm", codes "video/webm")
    ∷ (codes "mp4", codes "video/mp4")
    ∷ (codes "mov", codes "video/quicktime")
    ∷ []

unfoldable pub mime_types : Dict Text Text → Dict Text Text
mime_types given = Dict.update Text-discrete default_types given
