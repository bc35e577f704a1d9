-- ===== src/Lib.antt =====
-- Verification library of the automation portfolio.
--
-- The program is 03-automated-news-intelligence-pipeline (its package `app`), which collects news
-- from feeds, selects candidates, has a language model write a digest, and sends it by Telegram.
-- Paths below are relative to 03-automated-news-intelligence-pipeline/app.
--
-- How the parts interact. Entities (domain/*.py) check their fields on construction and change
-- through methods that follow the diagrams of domain/state_machine.py. The repositories keep them as
-- rows. A run of application/pipeline.py takes the advisory lock, stores the articles of the feeds
-- (application/feed_ingestion.py), picks the candidates of a digest (domain/selection.py), has the
-- language model write it and checks what it wrote (application/digest_generation.py and
-- digest_validation.py), stores the digest, and sends it (application/digest_delivery.py) as the
-- messages of application/digest_render.py. Whatever raises on the way, the run is completed.
--
-- Which file models which part:
--   Enums, Messages   domain/enums.py, domain/exceptions.py, the constants of texts
--   Machine           domain/state_machine.py
--   Validators        domain/validators.py, scalar values
--   Net               domain/validators.py (normalize_hostname, ensure_https_url),
--                     domain/feed_policy.py and infrastructure/feeds/dns.py
--   Run               domain/pipeline.py, `PipelineRun`
--   Attempt           domain/delivery.py, `DeliveryAttempt`
--   Digest            domain/digest.py, `DigestItem` and `Digest`
--   Fetch             domain/feed_fetch.py, `FeedFetch`
--   News, Source      domain/entities.py, `NewsItem` and `Source`
--   Render            application/digest_render.py, texts/digest_format.py
--   Select            domain/selection.py
--   Store             infrastructure/db/repositories (delivery.py, digest.py, feed_fetch.py,
--                     news_item.py, pipeline.py, source.py) and infrastructure/db/session.py
--   Ingest            application/feed_ingestion.py, application/feed_http_types.py,
--                     infrastructure/feeds/parser.py and normalize.py, domain/url_normalization.py,
--                     domain/hashing.py, domain/text_sanitize.py
--   Generate          application/digest_generation.py, application/digest_validation.py,
--                     application/digest_schema.py, application/llm_types.py
--   Delivery          application/digest_delivery.py, application/telegram_types.py
--   Pipeline          application/pipeline.py
--   Cleanup           application/cleanup.py
--   Prelude           Python's values: str, int, datetime, Decimal, sorted, exceptions
--   Tests             the theorems on concrete inputs
--
-- How code is modelled. A dataclass is a record, and its `__post_init__` is `post_init`, from the
-- fields as given to the result of construction. A method is an action on the object's record: it
-- gives a value or an exception, and the object in either case. Functions that raise give a
-- `Result`. A `str` is a list of code points, an `int` is an integer without bound, a `datetime` is a number
-- of microseconds, naive or aware. Ids are numbers. In the entities the clock and the drawn ids are
-- arguments. Every loop is structural; the trials of a part count down the retries of the settings,
-- and printing a number has more fuel than the number has digits.
--
-- The database is one list of rows for each table. A transaction is an action on it that is taken
-- back when it raises; what was assigned to an object in it stays assigned. Between transactions a
-- service acts on the store and on the world of the clients, the clock and `uuid4`. The two times of
-- `_fail_digest` are read as its transaction begins, and the id and the time of a new digest as its
-- generation begins. The answers of all feeds are there before the first of them is stored. Of the
-- constraints of the tables the unique ones are modelled.
--
-- Parameters, with no law assumed of any of them. Python's own: `urlsplit`, `ip_address`,
-- `str.lower` and `str.upper` (Net), `html.unescape`, `parse_qsl`, `urlencode`, `urlunsplit`, the
-- idna codec, SHA-256, the parsing of dates and the milliseconds of a span, a floating-point product
-- (Ingest), and floating-point arithmetic (Select).
-- Libraries: feedparser and nh3 (Ingest). The outside: the Telegram client, the clock, `uuid4` and
-- `sleep` (Delivery), the answers of the feed client and the ids drawn while they are stored (Ingest),
-- the language model (Generate), the answer of `getaddrinfo` and the order of addresses (Net), and the
-- advisory lock, the files of the configuration and the collation of the database (Pipeline).
--
-- Not modelled: rejection of values of a wrong type, which typed definitions cannot be given; the
-- text of most exceptions; the JSON of the prompt; application/source_limits.py,
-- the synchronization of sources with their configuration, and the checks of the settings; the HTTP,
-- OpenAI and Telegram clients, the engine of the database, the API, the command line, the
-- scheduler and logging; the scripts of the other two projects, which write and check files.
pub mod Enums
pub mod Messages
pub mod Machine
pub mod Validators
pub mod Net
pub mod Run
pub mod Attempt
pub mod Digest
pub mod Fetch
pub mod News
pub mod Source
pub mod Render
pub mod Ingest
pub mod Generate
pub mod Pipeline
pub mod Select
pub mod Store
pub mod Cleanup
pub mod Delivery
pub mod Prelude
pub mod Tests
