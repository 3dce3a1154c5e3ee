-- ===== src/Report/Tables.antt =====
-- The alias tables of ui/web/src/lib/report-spec.ts, in the source's order.
use temporal_loom.Prelude.{List, [], ◌∷◌, String, Text, text, Dict}

abbrev row : String → String → Text × Text
row k v = (text k, text v)

-- `aliases` of `normalizeReportComponentType`.
unfoldable pub component_aliases : Dict Text
component_aliases =
    row "alert" "Alert"
    ∷ row "area" "AreaChart"
    ∷ row "areachart" "AreaChart"
    ∷ row "avatar" "Avatar"
    ∷ row "badge" "Badge"
    ∷ row "bar" "BarChart"
    ∷ row "barchart" "BarChart"
    ∷ row "bargraph" "BarGraph"
    ∷ row "button" "Button"
    ∷ row "buttongroup" "ButtonGroup"
    ∷ row "callout" "Callout"
    ∷ row "card" "Card"
    ∷ row "carousel" "Carousel"
    ∷ row "checkbox" "Checkbox"
    ∷ row "candlestick" "CandlestickChart"
    ∷ row "candlestickchart" "CandlestickChart"
    ∷ row "choropleth" "ChoroplethChart"
    ∷ row "choroplethchart" "ChoroplethChart"
    ∷ row "collapsible" "Collapsible"
    ∷ row "composed" "ComposedChart"
    ∷ row "composedchart" "ComposedChart"
    ∷ row "comparison" "BarChart"
    ∷ row "comparisonchart" "BarChart"
    ∷ row "container" "Stack"
    ∷ row "delta" "WaterfallChart"
    ∷ row "deltabreakdown" "WaterfallChart"
    ∷ row "distribution" "HistogramChart"
    ∷ row "distributionchart" "HistogramChart"
    ∷ row "dialog" "Dialog"
    ∷ row "drawer" "Drawer"
    ∷ row "dropdownmenu" "DropdownMenu"
    ∷ row "funnel" "FunnelChart"
    ∷ row "funnelchart" "FunnelChart"
    ∷ row "gauge" "Gauge"
    ∷ row "gaugechart" "GaugeChart"
    ∷ row "grid" "Grid"
    ∷ row "heatmap" "HeatmapChart"
    ∷ row "heatmapchart" "HeatmapChart"
    ∷ row "histogram" "HistogramChart"
    ∷ row "histogramchart" "HistogramChart"
    ∷ row "heading" "Heading"
    ∷ row "icon" "Icon"
    ∷ row "image" "Image"
    ∷ row "input" "Input"
    ∷ row "legend" "Legend"
    ∷ row "line" "LineChart"
    ∷ row "linechart" "LineChart"
    ∷ row "linegraph" "LineGraph"
    ∷ row "link" "Link"
    ∷ row "liveline" "LiveLineChart"
    ∷ row "livelinechart" "LiveLineChart"
    ∷ row "metric" "Metric"
    ∷ row "pagination" "Pagination"
    ∷ row "pie" "PieChart"
    ∷ row "piechart" "PieChart"
    ∷ row "popover" "Popover"
    ∷ row "profitloss" "ProfitLossLine"
    ∷ row "profitlossline" "ProfitLossLine"
    ∷ row "progress" "Progress"
    ∷ row "radio" "Radio"
    ∷ row "radar" "RadarChart"
    ∷ row "radarchart" "RadarChart"
    ∷ row "rating" "Rating"
    ∷ row "ring" "RingChart"
    ∷ row "ringchart" "RingChart"
    ∷ row "sankey" "SankeyChart"
    ∷ row "sankeychart" "SankeyChart"
    ∷ row "scatter" "ScatterChart"
    ∷ row "scatterchart" "ScatterChart"
    ∷ row "select" "Select"
    ∷ row "separator" "Separator"
    ∷ row "skeleton" "Skeleton"
    ∷ row "slider" "Slider"
    ∷ row "spinner" "Spinner"
    ∷ row "stack" "Stack"
    ∷ row "steps" "Steps"
    ∷ row "switch" "Switch"
    ∷ row "table" "Table"
    ∷ row "tabs" "Tabs"
    ∷ row "text" "Text"
    ∷ row "textarea" "Textarea"
    ∷ row "timeseries" "LineChart"
    ∷ row "timeserieschart" "LineChart"
    ∷ row "toggle" "Toggle"
    ∷ row "togglegroup" "ToggleGroup"
    ∷ row "tooltip" "Tooltip"
    ∷ row "trend" "LineChart"
    ∷ row "trendchart" "LineChart"
    ∷ row "waterfall" "WaterfallChart"
    ∷ row "waterfallchart" "WaterfallChart"
    ∷ []

-- `aliases` of `normalizeChartType`.
unfoldable pub chart_aliases : Dict Text
chart_aliases =
    row "area" "AreaChart"
    ∷ row "areachart" "AreaChart"
    ∷ row "bar" "BarChart"
    ∷ row "barchart" "BarChart"
    ∷ row "bargraph" "BarGraph"
    ∷ row "candlestick" "CandlestickChart"
    ∷ row "candlestickchart" "CandlestickChart"
    ∷ row "choropleth" "ChoroplethChart"
    ∷ row "choroplethchart" "ChoroplethChart"
    ∷ row "composed" "ComposedChart"
    ∷ row "composedchart" "ComposedChart"
    ∷ row "comparison" "BarChart"
    ∷ row "contribution" "WaterfallChart"
    ∷ row "delta" "WaterfallChart"
    ∷ row "deltabreakdown" "WaterfallChart"
    ∷ row "distribution" "HistogramChart"
    ∷ row "funnel" "FunnelChart"
    ∷ row "funnelchart" "FunnelChart"
    ∷ row "gauge" "Gauge"
    ∷ row "gaugechart" "GaugeChart"
    ∷ row "heatmap" "HeatmapChart"
    ∷ row "heatmapchart" "HeatmapChart"
    ∷ row "histogram" "HistogramChart"
    ∷ row "histogramchart" "HistogramChart"
    ∷ row "line" "LineChart"
    ∷ row "linechart" "LineChart"
    ∷ row "linegraph" "LineGraph"
    ∷ row "liveline" "LiveLineChart"
    ∷ row "livelinechart" "LiveLineChart"
    ∷ row "pie" "PieChart"
    ∷ row "piechart" "PieChart"
    ∷ row "profitloss" "ProfitLossLine"
    ∷ row "profitlossline" "ProfitLossLine"
    ∷ row "radar" "RadarChart"
    ∷ row "radarchart" "RadarChart"
    ∷ row "ring" "RingChart"
    ∷ row "ringchart" "RingChart"
    ∷ row "sankey" "SankeyChart"
    ∷ row "sankeychart" "SankeyChart"
    ∷ row "scatter" "ScatterChart"
    ∷ row "scatterchart" "ScatterChart"
    ∷ row "timeseries" "LineChart"
    ∷ row "trend" "LineChart"
    ∷ row "waterfall" "WaterfallChart"
    ∷ row "waterfallchart" "WaterfallChart"
    ∷ []

-- `aliases` of `normalizeStepStatus`.
unfoldable pub status_aliases : Dict Text
status_aliases =
    row "active" "active"
    ∷ row "current" "active"
    ∷ row "doing" "active"
    ∷ row "inprogress" "active"
    ∷ row "loading" "active"
    ∷ row "processing" "active"
    ∷ row "running" "active"
    ∷ row "waiting" "active"
    ∷ row "done" "done"
    ∷ row "complete" "done"
    ∷ row "completed" "done"
    ∷ row "ok" "done"
    ∷ row "passed" "done"
    ∷ row "success" "done"
    ∷ row "successful" "done"
    ∷ row "error" "error"
    ∷ row "failed" "error"
    ∷ row "failure" "error"
    ∷ row "rejected" "error"
    ∷ row "timeout" "error"
    ∷ row "pending" "pending"
    ∷ row "queued" "pending"
    ∷ row "todo" "pending"
    ∷ row "waitinginput" "pending"
    ∷ []

-- `aliases` of `normalizeTone`.
unfoldable pub tone_aliases : Dict Text
tone_aliases =
    row "amber" "warning"
    ∷ row "blue" "info"
    ∷ row "danger" "error"
    ∷ row "destructive" "error"
    ∷ row "error" "error"
    ∷ row "fail" "error"
    ∷ row "failed" "error"
    ∷ row "gray" "neutral"
    ∷ row "green" "success"
    ∷ row "grey" "neutral"
    ∷ row "info" "info"
    ∷ row "neutral" "neutral"
    ∷ row "orange" "warning"
    ∷ row "red" "error"
    ∷ row "success" "success"
    ∷ row "warn" "warning"
    ∷ row "warning" "warning"
    ∷ row "yellow" "warning"
    ∷ []

-- The list of `isChartType`.
unfoldable pub chart_types : List Text
chart_types =
    text "AreaChart"
    ∷ text "BarChart"
    ∷ text "BarGraph"
    ∷ text "CandlestickChart"
    ∷ text "ChoroplethChart"
    ∷ text "ComposedChart"
    ∷ text "FunnelChart"
    ∷ text "Gauge"
    ∷ text "GaugeChart"
    ∷ text "HeatmapChart"
    ∷ text "HistogramChart"
    ∷ text "LineChart"
    ∷ text "LineGraph"
    ∷ text "LiveLineChart"
    ∷ text "PieChart"
    ∷ text "ProfitLossLine"
    ∷ text "RadarChart"
    ∷ text "RingChart"
    ∷ text "SankeyChart"
    ∷ text "ScatterChart"
    ∷ text "WaterfallChart"
    ∷ []
