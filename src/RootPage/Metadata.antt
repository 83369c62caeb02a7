-- ===== src/RootPage/Metadata.antt =====
-- The metadata of a store on its root page: `RootPage::update_header` and `read_metadata`.
use vsql_vector.Base.{
  ℕ, ◌≡◌, ◌≢◌, refl, ap, sym, ◌∙◌, true, false, List, inr, arith, ==_iff, ==_of_ne, length,
}
use vsql_vector.Page.Api.{PageApi, Apart}
use vsql_vector.DataPage.View.{bytes_at, bytes_at-list}
use vsql_vector.RootPage.{
  RootPage, update_header, read_metadata, storage_metadata_off, storage_metadata_len_off,
}

module _ ⦃api : PageApi⦄ where
  open api use {Page, read_integer, read-write_string, write_string, get_data-write_string_self}

  -- `update_header` fails exactly on metadata of another length than the store was made with, and then
  -- changes nothing. Otherwise `read_metadata` yields the new metadata, and every integer on the page
  -- before it or behind it is as it was.
  pub update_header_lem :
      (r : RootPage) (p : Page) (metadata : List ℕ)
      → read_integer 1 p (storage_metadata_len_off r) ≡ r.storage_metadata_len
      → let (p', error) = update_header r p metadata in
        (length metadata ≢ r.storage_metadata_len → (p' ≡ p) × (error ≡ true))
        × (length metadata ≡ r.storage_metadata_len
            → (error ≡ false)
              × (read_metadata r p' ≡ metadata)
              × ((w a : ℕ)
                  → Apart (storage_metadata_off r) r.storage_metadata_len a w
                  → read_integer w p' a ≡ read_integer w p a))
  unfolding update_header read_metadata
  update_header_lem r p metadata len = (
    λ ne. rw (==_of_ne (length metadata) r.storage_metadata_len ne) (refl, refl),
    λ e. rw ((==_iff (length metadata) r.storage_metadata_len).1 e) (
      refl,
      ap (bytes_at q off) (read-write_string 1 p off _ metadata (inr (omega arith)) ∙ len ∙ sym e)
          ∙ bytes_at-list q metadata off (λ i lt. get_data-write_string_self p off i metadata lt),
      λ w a apart. read-write_string w p off a metadata (omega (arith, apart, e)),
    ),
  )
    where
      off : ℕ
      off = storage_metadata_off r

      q : Page
      q = write_string p off metadata
