-- ===== src/Lib.antt =====
-- ASO-Light: the decision logic of its backend, from the gate in front of the tools that an
-- assistant calls down to the prices, the keyword fields and the metadata that are sent to the
-- stores.
--
-- The program. A FastAPI backend (backend/app) serves a web frontend and an MCP server for AI
-- assistants. Both call the same services. The MCP server puts a consent gate in front of every
-- destructive tool. The pricing services compute a price for each territory from a base price and
-- an economic index, round it to what each currency's customers expect, and report territories that
-- they skip. The apply sends the chosen prices to App Store Connect, within a band around the
-- current price, or as one schedule. The keyword services choose words for the keyword fields of a
-- storefront's locales; their fields go to the bulk preview and the bulk write of the metadata
-- services, which validate them, check what the current version allows to edit, and patch or create
-- one localization per locale. The asset sync makes each set of screenshots or previews a copy of
-- an export. The product swap moves the entitlements and packages of RevenueCat from one product to
-- another.
--
-- Files and sources, with paths under backend/app:
--   Mcp/Consent, and below it: mcp/consent.py. The store `_pending` is an association list from
--     tokens to entries in order of insertion. `gate`, `check_pending`, `mint`, `prune` and `evict`
--     are `ConsentGate.on_call_tool` and the functions it calls; Tables holds DESTRUCTIVE and
--     READ_ONLY; Trace runs a list of calls.
--   Pricing/Rounding: services/pricing/currency_rounding.py. Pricing/Charming: charming.py.
--     Pricing/Safety: safety.py. Pricing/Tiers: gdp_brackets.py. Pricing/Engine: the calculators
--     and engine.py. Pricing/Finalize and Pricing/Preview: preview.py and currency.py.
--   Pricing/Cache: services/asc/price_point_cache.py, with the codes of data/territories.py in
--     Pricing/Territories; the directory of a cache is a dictionary of files. Pricing/Apply:
--     `apply_subscription_prices` and `apply_iap_prices` of api/v1/pricing.py. Apply holds what
--     both loops do with an item, Apply/Reads how they read the cache, Apply/Subscription and
--     Apply/Iap the two functions. Database rows come as arguments. Pricing/Versions:
--     services/pricing/versions.py; `happens` is one event of one call of `record_price_version` on
--     the shared table.
--   Keywords/Tokenize and Keywords/Packer: services/keyword_intel/tokenize.py and packer.py.
--     Keywords/CrossLocalization: services/keywords/cross_localization.py with its whole table.
--   Metadata/Validation, Metadata/Guard, Metadata/Bulk: services/metadata/validation.py, guard.py
--     and bulk.py, with the state guard of client.py. Bulk/Apply is the write, Bulk/Step one round
--     of its loop, Bulk/Mirror the whole loop. Metadata/Audit: services/aso_check/audit.py.
--   Visibility/Anomaly: services/visibility/anomaly.py, with the median and its rounding written
--     out.
--   Assets/Slots, Assets/Client, Assets/Sync: services/asc/asset_sync.py. Slots compares the assets
--     of a set with the files of an export; Client holds the calls to App Store Connect as actions
--     that pass on the calls made, the newest first; Sync is `apply_sync_step`, its retry and
--     `apply_sync`.
--   Revenuecat/Swap: services/revenuecat/swap.py, with the calls made as in Assets/Client.
--   Base: Boolean tests, lists, dictionaries as association lists, integers and sorting, which
--     every component uses. Each Tests file runs its component on small inputs.
--
-- How the code is read:
--   - A Decimal is an integer number of units of 10^-40, of which every quantum and table entry of
--     the source is a whole number; quotients are compared by their cross products. Of Python's
--     context of 28 digits only the quantizing in `finalize_price` and in `_round_to_step` is
--     modelled, which raises where its result has more digits; the other results stand for prices
--     that fit in it.
--   - Instants are natural numbers of nanoseconds, and the time to live is in the same unit.
--   - Dictionaries and sets are lists in the order of insertion; text is compared by code points.
--   - An exception is a constructor with what its message reports; where the message itself is the
--     answer to an assistant, as in the consent challenge, it is a text.
--   - Every loop is recursion on a list or a number, so no fuel is used. Machine integers do not
--     occur: Python's integers are unbounded.
--   - A keyword candidate's value is an exact number of hundredths; the source computes with
--     floats.
--
-- Parameters. Code outside the repository is an argument: JSON text, SHA-256, random tokens and the
-- clock in Mcp/Consent; the economic data and exchange rates in Pricing/Preview; the regular
-- expressions and the case folding in Keywords/Tokenize; URL parsing in Metadata/Validation; the
-- HTTP calls to App Store Connect, with an explicit session, in Metadata/Bulk, and with the calls
-- made so far in Assets/Client, where a reply may also lack a key that the code reads; the RevenueCat client in Revenuecat/Swap; MD5 and the files on disk
-- in Assets/Client; JSON, base64 and a regular expression in Pricing/Cache; the pricing service of
-- App Store Connect and the text of the current day in Pricing/Apply.
--
-- Not modelled: HTTP clients, database queries and commits, the REST and MCP wrappers around the
-- services, the frontend, the introductory offers of a subscription, the scan of an export
-- directory, and the services for polling ranks, reviews, exports, listing assets and Apple Search
-- Ads. Python's exceptions from outside the services end the real call; here they are the failing
-- replies of a parameter. A bulk write takes the rows that its query loads as an argument.
pub mod Base
pub mod Assets
pub mod Keywords
pub mod Mcp
pub mod Metadata
pub mod Pricing
pub mod Revenuecat
pub mod Visibility
