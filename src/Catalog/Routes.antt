-- ===== src/Catalog/Routes.antt =====
-- The routes of files, and bucket names that hold no slash.
use text.Mathlib.TextLemmas.{append_cancel_left}
use parparchik.Common.{String, ◌≡◌, HasNo, cut_unique}
use parparchik.Catalog.Update.{route_for}

-- A bucket name with no slash in it, as S3 requires of all names.
abbrev pub IsBucketName : String → Type 0
IsBucketName bucket = HasNo b'/' bucket

pub route_for_inj :
    (b b' k k' : String)
    → IsBucketName b
    → IsBucketName b'
    → route_for b k ≡ route_for b' k'
    → (b ≡ b') × (k ≡ k')
unfolding route_for
route_for_inj b b' k k' h h' e = cut_unique b b' k k' h h' (append_cancel_left "/" _ _ e)
