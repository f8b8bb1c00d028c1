-- ===== src/Media.antt =====
-- The files that the forms of apps/web hold before they are uploaded, as in
-- components/shipment/NewShipmentForm.tsx; components/auction/NewForwardAuctionForm.tsx and
-- components/auction/NewAuctionForm.tsx hold them the same way. The random ids and the object URLs
-- that the browser makes are arguments; a revoked URL is a command.
pub mod Previews
use reverse_auction.Common.{
  Bool, true, false, not, Option, none, some, List, [], ◌∷◌, ◌++◌, map, String, keep, find, str_eq,
  if◌then◌else◌,
}
use text.Mathlib.Text.{starts_with}

pub data MediaType : Type 0 where
  image video : MediaType

pub record File : Type 0 where
  pub name : String
  pub type : String

-- `MediaPreview`
pub record Preview : Type 0 where
  pub id : String
  pub file : File
  pub url : String
  pub type : MediaType

-- What the browser gives for one chosen file: the random id and the object URL.
pub record Chosen : Type 0 where
  pub file : File
  pub id : String
  pub url : String

abbrev pub preview : Chosen → Preview
preview c = record {
  id = c.id;
  file = c.file;
  url = c.url;
  type = if starts_with c.file.type "video/" then video else image;
}

-- The previews, and the URLs that have been revoked, the latest first.
pub record Gallery : Type 0 where
  pub media : List Preview
  pub revoked : List String

abbrev urls : List Preview → List String
urls ms = map (λ (m : Preview). m.url) ms

-- A change of `media`: React runs the cleanup of the old effect, which has the old list.
abbrev pub replace_media : List Preview → Gallery → Gallery
replace_media new g = record { media = new; revoked = urls g.media ++ g.revoked }

-- `handleFileChange`
unfoldable pub add_files : List Chosen → Gallery → Gallery
add_files files g = replace_media (g.media ++ map preview files) g

abbrev revoke_found : Option Preview → List String → List String
revoke_found none revoked = revoked
revoke_found (some m) revoked = m.url ∷ revoked

-- `removeMedia`: the updater revokes the URL of the file that leaves.
unfoldable pub remove_media : String → Gallery → Gallery
remove_media id g =
    replace_media (keep (λ m. not (str_eq m.id id)) g.media)
      (record g { revoked = revoke_found (find (λ m. str_eq m.id id) g.media) g.revoked })

-- `setMedia([])` after a form was sent.
unfoldable pub clear_media : Gallery → Gallery
clear_media g = replace_media [] g

-- The form unmounts.
unfoldable pub unmount_media : Gallery → Gallery
unmount_media g = record { media = []; revoked = urls g.media ++ g.revoked }
