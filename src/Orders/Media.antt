-- ===== src/Orders/Media.antt =====
-- The photos and videos of an order: `addMedia`, `addJobMedia` and `deleteMedia` of
-- apps/api/src/modules/orders/orders.service.ts, and apps/api/src/infra/storage/magic-bytes.ts.
pub mod Files
use handly_web_app.Prelude.{
  is_prefix, ℕ, Bool, true, false, not, ◌&&◌, ◌||◌, ◌==◌, nat_eq, leb, ltb, Option, none, some,
  List, [], ◌∷◌, length, drop, includes, lookup, insert, Table, is_some, nat_beq, if◌then◌else◌,
}
use handly_web_app.Contracts.{in_progress, completed, status_eq}
use handly_web_app.Store.{
  MediaKind, photo, video, Mime, jpeg, png, webp, gif, heic, mp4, quicktime, webm, unknown,
  Uploader, Media, Order, Db, Error, not_found, conflict, bad_request, unsupported_media_type,
  payload_too_large, M, ◌>>=◌, ◌>>◌, gets, modify, pure, guard, require, fresh_id, update_order,
  after,
}
use handly_web_app.Platform.{Platform}
use handly_web_app.Orders.State.{editable_statuses}
use handly_web_app.Orders.Access.{get_owned, get_owned_by_master}

-- A buffer is the list of its bytes.
pub record File : Type 0 where
  pub buffer : List ℕ
  pub mime : Mime

unfoldable pub bytes_equal : List ℕ → ℕ → List ℕ → Bool
bytes_equal buffer offset expected = is_prefix expected (drop offset buffer)

unfoldable pub is_iso_bmff : List ℕ → Bool
is_iso_bmff buffer = bytes_equal buffer 4 (0x66 ∷ 0x74 ∷ 0x79 ∷ 0x70 ∷ [])

-- `SIGNATURES`; a type without one is let through.
unfoldable pub matches_magic_bytes : List ℕ → Mime → Bool
matches_magic_bytes b jpeg = bytes_equal b 0 (0xff ∷ 0xd8 ∷ 0xff ∷ [])
matches_magic_bytes b png =
    bytes_equal b 0 (0x89 ∷ 0x50 ∷ 0x4e ∷ 0x47 ∷ 0x0d ∷ 0x0a ∷ 0x1a ∷ 0x0a ∷ [])
matches_magic_bytes b gif = bytes_equal b 0 (0x47 ∷ 0x49 ∷ 0x46 ∷ 0x38 ∷ [])
matches_magic_bytes b webp =
    bytes_equal b 0 (0x52 ∷ 0x49 ∷ 0x46 ∷ 0x46 ∷ [])
    && bytes_equal b 8 (0x57 ∷ 0x45 ∷ 0x42 ∷ 0x50 ∷ [])
matches_magic_bytes b heic = is_iso_bmff b
matches_magic_bytes b mp4 = is_iso_bmff b
matches_magic_bytes b quicktime = is_iso_bmff b
matches_magic_bytes b webm = bytes_equal b 0 (0x1a ∷ 0x45 ∷ 0xdf ∷ 0xa3 ∷ [])
matches_magic_bytes b unknown = true

-- `PHOTO_MIMES` and `VIDEO_MIMES`.
unfoldable pub kind_of : Mime → Option MediaKind
kind_of jpeg = some photo
kind_of png = some photo
kind_of webp = some photo
kind_of gif = some photo
kind_of heic = some photo
kind_of mp4 = some video
kind_of quicktime = some video
kind_of webm = some video
kind_of unknown = none

unfoldable pub max_bytes : Platform → MediaKind → ℕ
max_bytes p photo = p.upload_max_photo_bytes
max_bytes p video = p.upload_max_video_bytes

-- The key of the stored object is the storage's.
unfoldable pub save_media_file : Platform → ℕ → Order → File → Uploader → M (Unit {0})
save_media_file p id order file role = do
  guard (ltb (length order.media) p.order_max_media) bad_request
  kind ← require (kind_of file.mime) unsupported_media_type
  guard (matches_magic_bytes file.buffer file.mime) unsupported_media_type
  guard (leb (length file.buffer) (max_bytes p kind)) payload_too_large
  object_key ← fresh_id
  media ← fresh_id
  let row : Media = record {
    kind = kind;
    uploaded_by = role;
    object_key = object_key;
    mime = file.mime;
    size_bytes = length file.buffer;
  }
  update_order id (λ o. record o { media = insert media row o.media })

unfoldable pub add_media : Platform → ℕ → ℕ → File → M Order
add_media p customer id file = do
  order ← get_owned customer id
  guard (includes editable_statuses order.status) conflict
  save_media_file p id order file Uploader.customer
  get_owned customer id

unfoldable pub add_job_media : Platform → ℕ → ℕ → File → M Order
add_job_media p master id file = do
  order ← get_owned_by_master master id
  guard (order.status == in_progress || order.status == completed) conflict
  save_media_file p id order file Uploader.master
  get_owned_by_master master id

abbrev pub remove : ℕ → Table Media → Table Media
remove id [] = []
remove id ((k, m) ∷ t) = if nat_beq k id then t else (k, m) ∷ remove id t

unfoldable pub delete_media : ℕ → ℕ → ℕ → M Order
delete_media customer id media = do
  order ← get_owned customer id
  row ← require (lookup media order.media) not_found
  update_order id (λ o. record o { media = remove media o.media })
  get_owned customer id

pub data MediaRequest : Type 0 where
  attach attach_evidence : ℕ → ℕ → File → MediaRequest
  detach : ℕ → ℕ → ℕ → MediaRequest

unfoldable pub handle_media : Platform → MediaRequest → Db → Db
handle_media p (attach customer id file) db = after (add_media p customer id file db)
handle_media p (attach_evidence master id file) db = after (add_job_media p master id file db)
handle_media p (detach customer id media) db = after (delete_media customer id media db)

unfoldable pub run_media : Platform → List MediaRequest → Db → Db
run_media p [] db = db
run_media p (r ∷ rs) db = run_media p rs (handle_media p r db)
