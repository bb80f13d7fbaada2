-- ===== src/Tests/Files.antt =====
-- The theorems on attachments and on the search, in the small shop.
use messageries.Base.{[], find, refl, some, true, ℕ, ◌+◌, ◌∷◌, ◌≡◌, ◌≢◌}
use messageries.Attachments.{
  DownloadInput, DownloadUrl, ObjectStore, PresignInput, PresignedUpload, get_download_url,
  has_attachment_id, object_key_of, presign_upload,
}
use messageries.Attachments.Downloads.{IsPermitted, download_inv}
use messageries.Attachments.Quarantine.{finalize_all, unscanned_refused}
use messageries.Base.Text.{Text, codes}
use messageries.Config.{Config}
use messageries.Conversations.{assert_can_access}
use messageries.Db.{Db, ok}
use messageries.Entities.Accounts.{customer}
use messageries.Entities.Files.{Attachment, is_clean}
use messageries.Tests.Fixtures.{at, cfg, shop}

abbrev print_id : ℕ → Text
print_id id = (id + 48) ∷ []

-- A store that holds 500 bytes under every key.
abbrev store : ObjectStore
store = record {
  presign_put = λ key mime size ttl. key;
  presign_get = λ key ttl name. key;
  head = λ key. some 500;
  delete = λ key. true;
}

abbrev scanning : Config
scanning = record cfg { clamav_enabled = true }

abbrev upload : PresignInput
upload = record {
  user_id = 1;
  user_role = customer;
  conversation_id = 20;
  filename = codes "a b.png";
  mime_type = codes "image/png";
  size_bytes = 500;
}

abbrev prepared : PresignedUpload
prepared = record {
  attachment_id = 91;
  upload_url = object_key_of store print_id scanning (at 1000 90) upload;
  object_key = object_key_of store print_id scanning (at 1000 90) upload;
  expires_in = 300;
}

abbrev uploaded : Db
uploaded = (presign_upload store print_id scanning (at 1000 90) upload shop).1

presigned :
    presign_upload store print_id scanning (at 1000 90) upload shop ≡ (ok prepared, uploaded)
unfolding presign_upload assert_can_access
presigned = refl

abbrev request : DownloadInput
request = record { attachment_id = 91; user_id = 1; user_role = customer }

unscanned_refused_example :
    (get_download_url store print_id scanning
      (at 3000 0)
      request
      (finalize_all store print_id scanning ((at 2000 0, 91, 1) ∷ []) uploaded)).0
    ≢ ok (record { url = []; expires_in = 60 })
unscanned_refused_example =
    unscanned_refused store print_id scanning (at 1000 90) (at 3000 0) upload shop uploaded prepared
      ((at 2000 0, 91, 1) ∷ []) request (record { url = []; expires_in = 60 }) refl presigned refl

abbrev kept : Db
kept = (presign_upload store print_id cfg (at 1000 90) upload shop).1

abbrev address : DownloadUrl
address = record { url = object_key_of store print_id cfg (at 1000 90) upload; expires_in = 60 }

abbrev downloaded : Db
downloaded = (get_download_url store print_id cfg (at 3000 0) request kept).1

fetched : get_download_url store print_id cfg (at 3000 0) request kept ≡ (ok address, downloaded)
unfolding presign_upload get_download_url assert_can_access
fetched = refl

download_inv_example :
    (att : Attachment) × (find (has_attachment_id 91) kept.attachments ≡ some att)
    × (is_clean att.scan_status ≡ true)
    × IsPermitted kept 1 customer att.conversation_id
    × (address ≡ record {
      url = store.presign_get att.object_key 60 att.original_filename;
      expires_in = 60;
    })
download_inv_example =
    download_inv store print_id cfg (at 3000 0) request kept downloaded address fetched
