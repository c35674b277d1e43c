-- ===== src/Deck/Listing/Sorting.antt =====
-- The pages of a listing of decks together are the sorted listing.
use mnemo_api.Models.{Deck}
