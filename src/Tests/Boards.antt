-- ===== src/Tests/Boards.antt =====
-- internal/server/ui.go: the theorems on the dashboard, at concrete pages.
use worker_lightweight.Base.{◌≡◌, true, some, negsuc, Text, lit, parse_int, arith}
use worker_lightweight.Server.Types.{Request, get}
use worker_lightweight.Server.Dashboard.Texts.{itoa}
use worker_lightweight.Server.Dashboard.Itoa.{parse_int-itoa}
use worker_lightweight.Server.Dashboard.Window.{Shows, build_page_items-Shows}
use worker_lightweight.Server.Dashboard.Bar.{build_page_items}
use worker_lightweight.Tests.Services.{pull_request}

reads_back : (s : Text) × (itoa (negsuc 41) ≡ some s) × (parse_int s ≡ (negsuc 41, true))
reads_back = parse_int-itoa (negsuc 41) (omega arith) (omega arith)

page_5_of_9 : Shows 5 9 (build_page_items 5 9)
page_5_of_9 = build_page_items-Shows 5 9 (omega arith) (omega arith) (omega arith) (omega arith)

abbrev pub ui_request : Request
ui_request = record pull_request { method = get; path = lit "/ui" }
