-- ===== src/Libevi/Version.antt =====
-- package/libevi/src/evi_version.c, with the text of evi_version.h, and the version that
-- evi_caption.c gives.
use python2c.Base.{Bytes, codes}

abbrev pub evi_version_string : Bytes
evi_version_string = codes "0.9.0"

unfoldable pub evi_version : Bytes
evi_version = evi_version_string

unfoldable pub evi_caption_version : Bytes
evi_caption_version = codes "libevi/0.9.0"
